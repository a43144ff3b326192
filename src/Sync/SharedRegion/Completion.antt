-- ===== src/Sync/SharedRegion/Completion.antt =====
-- Chapter 7/shm_example.cpp: which runs end, and which leave the child waiting.
use c_programming_for_linux.Prelude.{
  ℕ, suc, ◌+◌, ◌<◌, ◌≡◌, ◌≢◌, ◌⊎◌, inl, inr, List, none, some, Bool, true, false, arith, run,
  run_inv, run_completes, Bool-cases,
}
use c_programming_for_linux.Sync.SharedRegion.{
  parent, child, Turn, ParentPc, ChildPc, State, main_started, step, semaphore_step, has_ended,
}
use c_programming_for_linux.Sync.SharedRegion.Handover.{Inv, step-Inv, run-Inv}

abbrev parent_left : ParentPc → ℕ
parent_left ParentPc.fork = 30
parent_left ParentPc.shm_open = 10
parent_left ParentPc.ftruncate = 9
parent_left ParentPc.mmap = 8
parent_left ParentPc.sem_wait = 7
parent_left ParentPc.memcpy = 6
parent_left ParentPc.sem_post = 5
parent_left ParentPc.waitpid = 4
parent_left ParentPc.munmap = 3
parent_left ParentPc.shm_unlink = 2
parent_left ParentPc.exited = 0
parent_left ParentPc.threw = 0
parent_left ParentPc.faulted = 0

abbrev child_left : ChildPc → ℕ
child_left ChildPc.absent = 0
child_left ChildPc.shm_open = 6
child_left ChildPc.mmap = 5
child_left ChildPc.sem_wait = 4
child_left ChildPc.memcpy = 3
child_left ChildPc.print = 2
child_left ChildPc.sem_post = 1
child_left ChildPc.exited = 0
child_left ChildPc.threw = 0
child_left ChildPc.faulted = 0

abbrev work_left : State → ℕ
work_left s = parent_left s.parent_pc + child_left s.child_pc

-- The parent has ended, and if it was not by an exception, so has the child.
abbrev pub ended : State → Bool
ended s = elim s.parent_pc [
  | ParentPc.threw ↦ true
  | ParentPc.exited ↦ has_ended s.child_pc
  | _ ↦ false
]

step-lowers-work_left :
    (t : Turn) (s s' : State) → Inv s → semaphore_step t s ≡ some s' → work_left s' < work_left s
unfolding semaphore_step step
step-lowers-work_left (parent fails) s s' v e = ground arith
step-lowers-work_left (child fails) s s' v e = ground arith

-- The parent can move, but while it waits for the child; the child can then move.
parent_moves :
    (s : State)
    → Inv s
    → ended s ≡ false
    → s.parent_pc ≢ ParentPc.waitpid
    → semaphore_step (parent false) s ≢ none
unfolding semaphore_step step has_ended
parent_moves s v h n e = ground arith

child_moves :
    (s : State)
    → Inv s
    → s.parent_pc ≡ ParentPc.waitpid
    → has_ended s.child_pc ≡ false
    → semaphore_step (child false) s ≢ none
unfolding semaphore_step step has_ended
child_moves s v h n e = ground arith

parent_at : (s : State) → (s.parent_pc ≡ ParentPc.waitpid) ⊎ (s.parent_pc ≢ ParentPc.waitpid)
parent_at s = ground arith

waiting_moves :
    (s : State) → Inv s → s.parent_pc ≡ ParentPc.waitpid → (t : Turn) × (semaphore_step t s ≢ none)
unfolding semaphore_step step
waiting_moves s v at = elim (Bool-cases (has_ended s.child_pc)) [
  | inl e ↦ (parent false, λ stuck. ground (arith, at, e, stuck))
  | inr e ↦ (child false, child_moves s v at e)
]

some_moves : (s : State) → Inv s → ended s ≡ false → (t : Turn) × (semaphore_step t s ≢ none)
some_moves s v h = elim (parent_at s) [
  | inl at ↦ waiting_moves s v at
  | inr n ↦ (parent false, parent_moves s v h n)
]

-- Where no region and no unit of the consumer's semaphore is left from earlier: from every state
-- that a schedule in which no call on a semaphore fails leads to, some further schedule brings the parent to its end, and the child as
-- well unless the parent ends with an exception.
pub region_users_never_stuck :
    (region : List ℕ) (sem_prod : ℕ) (ts : List Turn)
    → (us : List Turn) × (ended (
          run semaphore_step us
            (run semaphore_step ts (main_started false region (some sem_prod) (some 0) false)))
        ≡ true)
region_users_never_stuck region sem_prod ts =
    let s = run semaphore_step ts (main_started false region (some sem_prod) (some 0) false) in
    run_completes semaphore_step Inv ended work_left step-Inv step-lowers-work_left some_moves
      (suc (work_left s)) s (omega arith) (run-Inv region sem_prod ts)

record Abandoned (s : State) : Type 0 where
  parent_threw : s.parent_pc ≡ ParentPc.threw
  child_waits : s.child_pc ≡ ChildPc.sem_wait
  nothing_posted : s.sem_cons ≡ 0
  opened : s.cons_open ≡ true

step-Abandoned :
    (t : Turn) (s s' : State) → Abandoned s → semaphore_step t s ≡ some s' → Abandoned s'
unfolding semaphore_step step
step-Abandoned (parent fails) s s' v e = ground arith
step-Abandoned (child fails) s s' v e = ground arith

-- Once the parent has ended with an exception, a child that stands at `sem_wait` with nothing posted
-- stays there, under every schedule in which no call on a semaphore fails.
pub failed_parent_strands_child :
    (s : State) (ts : List Turn)
    → s.parent_pc ≡ ParentPc.threw
    → s.child_pc ≡ ChildPc.sem_wait
    → s.sem_cons ≡ 0
    → s.cons_open ≡ true
    → (run semaphore_step ts s).child_pc ≡ ChildPc.sem_wait
failed_parent_strands_child s ts threw waits none_posted opened =
    (run_inv semaphore_step Abandoned step-Abandoned ts s (record {
      parent_threw = threw;
      child_waits = waits;
      nothing_posted = none_posted;
      opened = opened;
    })).child_waits
