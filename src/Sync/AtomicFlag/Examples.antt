-- ===== src/Sync/AtomicFlag/Examples.antt =====
-- Chapter 7/cpp_atomic_flags.cpp: runs of the two threads.
use c_programming_for_linux.Prelude.{◌≡◌, true, refl, List, [], ◌∷◌, run}
use c_programming_for_linux.Sync.AtomicFlag.{Thread, increment, decrement, main_started, step}
use c_programming_for_linux.Sync.AtomicFlag.Alternation.{flag_loops_never_stuck, both_finished}

-- One round of each loop: the incrementing thread sleeps first.
abbrev one_round : List Thread
one_round =
    increment ∷ increment ∷ decrement ∷ decrement ∷ decrement ∷ decrement ∷ decrement ∷ increment
    ∷ increment ∷ increment ∷ increment ∷ []

-- The first update takes the unsigned counter below 0.
first_value :
    (run step
      (increment ∷ increment ∷ decrement ∷ decrement ∷ decrement ∷ decrement ∷ [])
      main_started).shared_resource
    ≡ 65535
unfolding run step
first_value = refl

-- Both loops update after a switch of the other: two decrements come first.
two_below :
    (run step
      (increment ∷ decrement ∷ decrement ∷ decrement ∷ decrement ∷ decrement ∷ increment ∷ increment
        ∷ decrement ∷ decrement ∷ decrement ∷ decrement ∷ [])
      main_started).shared_resource
    ≡ 65534
unfolding run step
two_below = refl

flag_loops_never_stuck_example :
    (us : List Thread) × (both_finished (run step us (run step one_round main_started)) ≡ true)
flag_loops_never_stuck_example = flag_loops_never_stuck one_round
