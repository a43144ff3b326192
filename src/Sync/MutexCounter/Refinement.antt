-- ===== src/Sync/MutexCounter/Refinement.antt =====
-- Chapter 7/cpp_mutex.cpp against Chapter 7/cpp_increment_atomic.cpp: the counter under the mutex
-- does what the atomic one does.
use c_programming_for_linux.Prelude.{
  ◌+◌, ◌≡◌, refl, ◌⊎◌, inl, inr, List, some, arith, run, run_refines,
}
use c_programming_for_linux.Sync.MutexCounter.{Thread, t1, t2, Pc, State, main_started, step}
use c_programming_for_linux.Sync.MutexCounter.Total.{Inv, counted, step-Inv, start-Inv}
use c_programming_for_linux.Sync.AtomicCounter

-- A thread has done its increment once it has written; until then it is still to add.
abbrev pub abstract_pc : Pc → AtomicCounter.Pc
abstract_pc Pc.looping = AtomicCounter.Pc.looping
abstract_pc Pc.unlocking = AtomicCounter.Pc.looping
abstract_pc Pc.finished = AtomicCounter.Pc.finished
abstract_pc _ = AtomicCounter.Pc.adding

abbrev pub abstraction : State → AtomicCounter.State
abstraction s = record {
  shared_resource = s.shared_resource;
  pc1 = abstract_pc s.pc1;
  i1 = s.i1 + counted s.pc1;
  pc2 = abstract_pc s.pc2;
  i2 = s.i2 + counted s.pc2;
}

simulate1 :
    (pc : Pc) (s s' : State)
    → s.pc1 ≡ pc
    → Inv s
    → step t1 s ≡ some s'
    → (abstraction s' ≡ abstraction s)
      ⊎ (AtomicCounter.step AtomicCounter.t1 (abstraction s) ≡ some (abstraction s'))
unfolding step AtomicCounter.step
simulate1 Pc.looping s s' at v e = inr (ground (arith, at, e))
simulate1 (Pc.writing value) s s' at v e = inr (ground (arith, at, e, v.fresh1))
simulate1 Pc.locking s s' at v e = inl (ground (arith, at, e))
simulate1 Pc.reading s s' at v e = inl (ground (arith, at, e))
simulate1 Pc.unlocking s s' at v e = inl (ground (arith, at, e))
simulate1 Pc.finished s s' at v e = inl (ground (arith, at, e))

simulate2 :
    (pc : Pc) (s s' : State)
    → s.pc2 ≡ pc
    → Inv s
    → step t2 s ≡ some s'
    → (abstraction s' ≡ abstraction s)
      ⊎ (AtomicCounter.step AtomicCounter.t2 (abstraction s) ≡ some (abstraction s'))
unfolding step AtomicCounter.step
simulate2 Pc.looping s s' at v e = inr (ground (arith, at, e))
simulate2 (Pc.writing value) s s' at v e = inr (ground (arith, at, e, v.fresh2))
simulate2 Pc.locking s s' at v e = inl (ground (arith, at, e))
simulate2 Pc.reading s s' at v e = inl (ground (arith, at, e))
simulate2 Pc.unlocking s s' at v e = inl (ground (arith, at, e))
simulate2 Pc.finished s s' at v e = inl (ground (arith, at, e))

simulate :
    (t : Thread) (s s' : State)
    → Inv s
    → step t s ≡ some s'
    → (abstraction s' ≡ abstraction s)
      ⊎ ((u : AtomicCounter.Thread) × (AtomicCounter.step u (abstraction s)
            ≡ some (abstraction s')))
simulate t1 s s' v e = elim (simulate1 s.pc1 s s' refl v e) [
  | inl same ↦ inl same
  | inr moved ↦ inr (AtomicCounter.t1, moved)
]
simulate t2 s s' v e = elim (simulate2 s.pc2 s s' refl v e) [
  | inl same ↦ inl same
  | inr moved ↦ inr (AtomicCounter.t2, moved)
]

-- The program with the mutex refines the one with the atomic counter: whatever a schedule of the one
-- leads to is, with a thread's unfinished round taken as not begun or as done, what some schedule of
-- the other leads to.
pub mutex_refines_atomic :
    (ts : List Thread)
    → (us : List AtomicCounter.Thread) × (run AtomicCounter.step us AtomicCounter.main_started
        ≡ abstraction (run step ts main_started))
mutex_refines_atomic ts =
    run_refines step AtomicCounter.step Inv abstraction step-Inv simulate ts main_started start-Inv
