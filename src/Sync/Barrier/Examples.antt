-- ===== src/Sync/Barrier/Examples.antt =====
-- Chapter 6/barrier-temperature.cpp: runs with whole degrees.
use c_programming_for_linux.Prelude.{ℕ, ◌+◌, ◌/◌, ◌≡◌, ◌≤◌, refl, true, List, [], ◌∷◌, arith, run}
use c_programming_for_linux.Sync.Barrier.{Samples, step, main_started, rooms, completion}
use c_programming_for_linux.Sync.Barrier.Sensors.{measurements}
use c_programming_for_linux.Sync.Barrier.Reports.{phase_reports, reports_are_means}
use c_programming_for_linux.Sync.Barrier.Completion.{ended, four_measurements}

sum : List ℕ → ℕ
sum [] = 0
sum (x ∷ xs) = x + sum xs

abbrev degrees : Samples ℕ
unfolding sum
degrees = record {
  nought = 0;
  add = λ x y. x + y;
  divide = λ x n. x / n;
  reduce = sum;
  draw = λ room call. (20 + room) ∷ (20 + call) ∷ [];
}

-- Two rooms; both measure once, and the second to arrive runs the completion.
abbrev one_phase : List ℕ
one_phase = 0 ∷ 0 ∷ 1 ∷ 0 ∷ 1 ∷ 1 ∷ []

first_report :
    (run (step degrees) one_phase (main_started degrees 2)).reports ≡ ((20 ∷ 20 ∷ [], 20) ∷ [])
unfolding run step rooms sum completion
first_report = refl

reports_are_means_example :
    let s = run (step degrees) one_phase (main_started degrees 2) in
    (s.phase ≤ measurements) × (s.reports ≡ phase_reports degrees 2 s.phase)
reports_are_means_example = reports_are_means degrees 2 one_phase

four_measurements_example :
    let s = run (step degrees) one_phase (main_started degrees 2) in
    ((us : List ℕ) × (ended degrees (run (step degrees) us s) ≡ true))
    × (ended degrees s ≡ true → s.reports ≡ phase_reports degrees 2 measurements)
four_measurements_example = four_measurements degrees 2 one_phase (omega arith)
