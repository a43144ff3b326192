-- ===== src/Sync/SeparateCounters/Examples.antt =====
-- Chapter 9/hardware_interference_example.cpp: a run of the three threads of main.
use c_programming_for_linux.Prelude.{◌≡◌, ◌≤◌, refl, true, List, [], ◌∷◌, All, run, map}
use c_programming_for_linux.Sync.SeparateCounters.{
  Turn, main_turn, thread_turn, Thread, limit, started, main_started, increment_step, thread_step,
  join_step, step,
}
use c_programming_for_linux.Sync.SeparateCounters.Totals.{all_joined, separate_totals}

-- The second thread counts once; main waits for the first.
abbrev one_count : List Turn
one_count = thread_turn 1 ∷ main_turn ∷ thread_turn 1 ∷ thread_turn 0 ∷ []

counted_once :
    map (λ (t : Thread). t.shared_res) (run step one_count (main_started 3)).threads
    ≡ 0 ∷ 1 ∷ 0 ∷ []
unfolding run step thread_step join_step increment_step started main_started
counted_once = refl

separate_totals_example :
    let s = run step one_count (main_started 3) in
    All (λ t. t.shared_res ≤ limit) s.threads
    × (all_joined s ≡ true → All (λ t. t.shared_res ≡ limit) s.threads)
    × ((us : List Turn) × (all_joined (run step us s) ≡ true))
separate_totals_example = separate_totals 3 one_count
