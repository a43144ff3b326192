-- ===== src/Sync/DetachedThread/Examples.antt =====
-- Chapter 2/thread_creation_example.cpp: the process ends before the detached thread has printed its
-- second line, and the joined thread prints inside a line of main.
use c_programming_for_linux.Prelude.{◌≡◌, ◌⊎◌, refl, true, List, [], ◌∷◌, run}
use c_programming_for_linux.Sync.DetachedThread.{
  Turn, main_turn, detached_turn, joined_turn, starting_detached, exiting_detached, main_started,
  main_step, detached_step, joined_step, step,
}
use c_programming_for_linux.Sync.DetachedThread.Pieces.{
  all_lines, both_joined, before_last_line, main_pieces, joined_pieces, detached_pieces,
}
use c_programming_for_linux.Sync.DetachedThread.Endings.{has_ended, process_ends}

abbrev early_end : List Turn
early_end =
    main_turn ∷ main_turn ∷ main_turn ∷ main_turn ∷ main_turn ∷ main_turn ∷ detached_turn
    ∷ main_turn ∷ main_turn ∷ main_turn ∷ main_turn ∷ main_turn ∷ joined_turn ∷ main_turn
    ∷ joined_turn ∷ main_turn ∷ main_turn ∷ main_turn ∷ main_turn ∷ main_turn ∷ main_turn
    ∷ main_turn ∷ []

detached_cut_off :
    (has_ended (run step early_end main_started) ≡ true)
    × (detached_pieces (run step early_end main_started).printed ≡ starting_detached ∷ [])
unfolding run step main_step detached_step joined_step
detached_cut_off = (refl, refl)

process_ends_example :
    let s = run step early_end main_started in
    (has_ended s ≡ true
      → (main_pieces s.printed ≡ all_lines)
        × (joined_pieces s.printed ≡ both_joined)
        × (joined_pieces (before_last_line s.printed) ≡ both_joined))
    × ((detached_pieces s.printed ≡ [])
        ⊎ (detached_pieces s.printed ≡ starting_detached ∷ [])
        ⊎ (detached_pieces s.printed ≡ exiting_detached ∷ starting_detached ∷ []))
    × ((us : List Turn) × (has_ended (run step us s) ≡ true))
process_ends_example = process_ends early_end
