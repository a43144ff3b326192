-- ===== src/Sync/Cancellation/Examples.antt =====
-- Chapter 9/coop_cancellation.cpp: the worker prints between the callback and the request.
use c_programming_for_linux.Prelude.{◌≡◌, true, List, [], ◌∷◌, run}
use c_programming_for_linux.Sync.Cancellation.{
  Turn, main_turn, worker_turn, stopper_turn, WorkerPc, main_started, step,
}
use c_programming_for_linux.Sync.Cancellation.Lines.{InOrder, ended, cancellation_lines}

abbrev worker_between : List Turn
worker_between =
    main_turn ∷ main_turn ∷ main_turn ∷ main_turn ∷ stopper_turn ∷ stopper_turn ∷ worker_turn
    ∷ worker_turn ∷ stopper_turn ∷ main_turn ∷ main_turn ∷ main_turn ∷ []

cancellation_lines_example :
    let s = run step worker_between main_started in
    (s.worker_pc ≡ WorkerPc.finished → s.stop_requested ≡ true)
    × (ended s ≡ true → InOrder s.printed)
    × ((us : List Turn) × (ended (run step us s) ≡ true))
cancellation_lines_example = cancellation_lines worker_between
