-- ===== src/Sync/SharedRegion/Examples.antt =====
-- Chapter 7/shm_example.cpp: runs of the two processes.
use c_programming_for_linux.Prelude.{
  ◌≡◌, ◌≢◌, ◌⊎◌, ◌↔◌, refl, List, [], ◌∷◌, none, some, true, false, run,
}
use c_programming_for_linux.Sync.SharedRegion.{
  parent, child, Turn, ChildPc, State, main_started, step, semaphore_step, produced_data,
}
use c_programming_for_linux.Sync.SharedRegion.Handover.{child_prints_message}

abbrev clean : State
clean = main_started false [] (some 0) (some 0) false

-- Fork; the parent opens the region, then the child does; the parent's `ftruncate` fails.
abbrev truncate_fails : List Turn
truncate_fails = parent false ∷ parent false ∷ child false ∷ child false ∷ parent true ∷ []

-- The child opens the region before the parent has made it.
abbrev child_first : List Turn
child_first = parent false ∷ child false ∷ []

child_first_throws : (run step child_first clean).child_pc ≡ ChildPc.threw
unfolding run step
child_first_throws = refl

child_prints_message_example :
    let s = run semaphore_step truncate_fails clean in
    (s.child_pc ≢ ChildPc.faulted)
    × ((s.consumed ≡ none) ⊎ (s.consumed ≡ some produced_data))
    × (s.child_pc ≡ ChildPc.exited → s.consumed ≡ some produced_data)
    × ((s.child_error ≢ none) ↔ (s.child_pc ≡ ChildPc.threw))
child_prints_message_example = child_prints_message [] 0 truncate_fails
