-- ===== src/Sync/MutexCounter/Total.antt =====
-- Chapter 7/cpp_mutex.cpp: under the mutex no increment is lost, and both loops end.
use c_programming_for_linux.Prelude.{
  ℕ, suc, ◌+◌, ◌-◌, ◌*◌, ◌≤◌, ◌<◌, ◌≡◌, ◌≢◌, refl, ◌⊎◌, inl, inr, List, none, some, Bool, true,
  false, arith, run, run_inv, run_completes,
}
use c_programming_for_linux.Sync.MutexCounter.{Thread, t1, t2, Pc, State, limit, main_started, step}

-- Whether the thread owns the mutex, and whether this round's increment is done.
abbrev pub owns : Pc → ℕ
owns Pc.reading = 1
owns (Pc.writing value) = 1
owns Pc.unlocking = 1
owns _ = 0

abbrev pub counted : Pc → ℕ
counted Pc.unlocking = 1
counted _ = 0

abbrev pub InLoop : ℕ → Pc → Type 0
InLoop i Pc.looping = i ≤ limit
InLoop i Pc.finished = i ≡ limit
InLoop i _ = i < limit

abbrev pub Fresh : ℕ → Pc → Type 0
Fresh r (Pc.writing value) = value ≡ r
Fresh r _ = Unit {0}

abbrev pub held : Bool → ℕ
held true = 1
held false = 0

pub record Inv (s : State) : Type 0 where
  pub owner : owns s.pc1 + owns s.pc2 ≡ held s.locked
  pub total : s.shared_resource ≡ s.i1 + counted s.pc1 + (s.i2 + counted s.pc2)
  pub in1 : InLoop s.i1 s.pc1
  pub in2 : InLoop s.i2 s.pc2
  pub fresh1 : Fresh s.shared_resource s.pc1
  pub fresh2 : Fresh s.shared_resource s.pc2

pub step-Inv : (t : Thread) (s s' : State) → Inv s → step t s ≡ some s' → Inv s'
unfolding step
step-Inv t1 s s' v e = ground arith
step-Inv t2 s s' v e = ground arith

pub start-Inv : Inv main_started
start-Inv = record {
  owner = refl;
  total = refl;
  in1 = omega arith;
  in2 = omega arith;
  fresh1 = tt;
  fresh2 = tt;
}

run-Inv : (ts : List Thread) → Inv (run step ts main_started)
run-Inv ts = run_inv step Inv step-Inv ts main_started start-Inv

-- Under every schedule at most one thread owns the mutex, and the counter is the number of
-- increments done so far: none is lost and the `uint32_t` does not wrap.
pub no_increment_lost :
    (ts : List Thread)
    → let s = run step ts main_started in
      (owns s.pc1 + owns s.pc2 ≤ 1)
      × (s.shared_resource ≡ s.i1 + counted s.pc1 + (s.i2 + counted s.pc2))
      × (s.pc1 ≡ Pc.finished → s.pc2 ≡ Pc.finished → s.shared_resource ≡ 2 * limit)
no_increment_lost ts = ground (arith, run-Inv ts)

abbrev pub both_finished : State → Bool
both_finished s = elim s.pc1 [
  | Pc.finished ↦ elim s.pc2 [ Pc.finished ↦ true | _ ↦ false ]
  | _ ↦ false
]

abbrev left : Pc → ℕ
left Pc.looping = 5
left Pc.locking = 4
left Pc.reading = 3
left (Pc.writing value) = 2
left Pc.unlocking = 1
left Pc.finished = 0

abbrev work_left : State → ℕ
work_left s = 6 * (limit - s.i1) + left s.pc1 + (6 * (limit - s.i2) + left s.pc2)

step-lowers-work_left :
    (t : Thread) (s s' : State) → Inv s → step t s ≡ some s' → work_left s' < work_left s
unfolding step
step-lowers-work_left t1 s s' v e = ground arith
step-lowers-work_left t2 s s' v e = ground arith

abbrev Ready : Bool → Pc → Type 0
Ready locked Pc.finished = ⊥
Ready locked Pc.locking = locked ≡ false
Ready locked _ = Unit {0}

some-Ready :
    (s : State) → Inv s → both_finished s ≡ false → Ready s.locked s.pc1 ⊎ Ready s.locked s.pc2
some-Ready s v e = ground arith

Ready-moves :
    (s : State)
    → (Ready s.locked s.pc1 → step t1 s ≢ none) × (Ready s.locked s.pc2 → step t2 s ≢ none)
unfolding step
Ready-moves s = (λ r e. ground arith, λ r e. ground arith)

some_moves : (s : State) → Inv s → both_finished s ≡ false → (t : Thread) × (step t s ≢ none)
some_moves s v e = elim (some-Ready s v e) [
  | inl r ↦ (t1, (Ready-moves s).0 r)
  | inr r ↦ (t2, (Ready-moves s).1 r)
]

-- From whatever state a schedule leads to, both loops can be run to their ends.
pub mutex_counter_never_stuck :
    (ts : List Thread)
    → (us : List Thread) × (both_finished (run step us (run step ts main_started)) ≡ true)
mutex_counter_never_stuck ts =
    run_completes step Inv both_finished work_left step-Inv step-lowers-work_left some_moves
      (suc (work_left (run step ts main_started))) (run step ts main_started) (omega arith)
      (run-Inv ts)
