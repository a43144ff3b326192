-- ===== src/Sync/StopTokens/Examples.antt =====
-- Chapter 6/stop-source.cpp and Chapter 6/stop-token.cpp: the two programs.
use c_programming_for_linux.Prelude.{
  ◌+◌, ◌≤◌, ◌≡◌, refl, true, false, List, [], ◌∷◌, length, All, arith, run,
}
use c_programming_for_linux.Sync.StopTokens.{
  request_stop, main_step, worker_body, worker_step, Turn, main_turn, worker_turn, stop_token,
  stop_requested, step,
}
use c_programming_for_linux.Sync.StopTokens.Polling.{IsCovered}
use c_programming_for_linux.Sync.StopTokens.Stopped.{workers_stop, lines, ended}

abbrev three_sources :
    All (IsCovered (false ∷ false ∷ false ∷ []) (0 ∷ 1 ∷ 2 ∷ [])) (0 ∷ 1 ∷ 2 ∷ [])
three_sources =
    ((omega arith, λ e. refl), ((omega arith, λ e. refl), ((omega arith, λ e. refl), tt)))

-- Main starts the workers, worker 1 prints a line and worker 2 tests its token; then main requests.
abbrev requesting : List Turn
requesting =
    main_turn
    ∷ main_turn
    ∷ main_turn
    ∷ main_turn
    ∷ worker_turn 1
    ∷ worker_turn 1
    ∷ worker_turn 2
    ∷ main_turn
    ∷ main_turn
    ∷ main_turn
    ∷ main_turn
    ∷ []

workers_stop_example :
    ((us : List Turn) × (ended (run step us (run step requesting stop_token)) ≡ true))
    × ((us : List Turn)
        → lines (run step us (run step requesting stop_token))
          ≤ lines (run step requesting stop_token)
            + length (run step requesting stop_token).workers)
unfolding run step main_step worker_step worker_body request_stop stop_requested
workers_stop_example =
    workers_stop (false ∷ false ∷ false ∷ []) (0 ∷ 1 ∷ 2 ∷ []) (0 ∷ 1 ∷ 2 ∷ []) three_sources
      requesting refl

-- Worker 1 has printed a line, and worker 2 is about to print one.
one_line : lines (run step requesting stop_token) ≡ 1
unfolding run step main_step worker_step worker_body request_stop stop_requested
one_line = refl
