-- ===== src/Sync/Latch/Examples.antt =====
-- Chapter 6/latch.cpp: main prints its last line before the threads print theirs.
use c_programming_for_linux.Prelude.{◌≡◌, refl, true, false, List, [], ◌∷◌, run}
use c_programming_for_linux.Sync.Latch.{
  Turn, main_turn, thread0, thread1, Line, main_started, count_down, main_step, thread0_step,
  thread1_step, step,
}
use c_programming_for_linux.Sync.Latch.Release.{has_line, ended, latch_releases}

abbrev main_first : List Turn
main_first =
    main_turn ∷ main_turn ∷ main_turn ∷ thread0 ∷ thread0 ∷ thread0 ∷ thread1 ∷ thread1 ∷ main_turn
    ∷ main_turn ∷ []

-- What main calls waiting for all threads to finish ends before they have finished.
threads_unfinished :
    let s = run step main_first main_started in
    (has_line Line.main_finished s.printed ≡ true)
    × (has_line (Line.finished 0) s.printed ≡ false)
    × (has_line (Line.finished 1) s.printed ≡ false)
unfolding run step main_step thread0_step thread1_step count_down
threads_unfinished = (refl, refl, refl)

latch_releases_example :
    let s = run step main_first main_started in
    (has_line Line.main_finished s.printed ≡ true
      → (has_line Line.decrementing s.printed ≡ true)
        × (has_line (Line.starting 1) s.printed ≡ true))
    × (has_line (Line.finished 1) s.printed ≡ true → has_line Line.decrementing s.printed ≡ true)
    × ((us : List Turn) × (ended (run step us s) ≡ true))
latch_releases_example = latch_releases main_first
