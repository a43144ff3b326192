-- ===== src/Processes/WaitPid/Examples.antt =====
-- Chapter 2/waitpid_example.cpp: runs with and without a failed fork.
use c_programming_for_linux.Prelude.{◌≡◌, refl, true, false, List, [], ◌∷◌, none, some, run}
use c_programming_for_linux.Processes.WaitPid.{
  second, Turn, parent, child, main_started, wait_status, is_exited, reap, wait_one, waitpid,
  report, parent_step, child_body, child_step, step,
}
use c_programming_for_linux.Processes.WaitPid.Reports.{
  reports, expected, has_finished, wait_reports,
}

-- The first fork fails, and the other child ends before the parent waits.
abbrev fork_failed : List Turn
fork_failed =
    parent true
    ∷ parent false
    ∷ child second
    ∷ child second
    ∷ parent false
    ∷ parent false
    ∷ parent false
    ∷ parent false
    ∷ []

one_child_reported_twice :
    reports (run step fork_failed main_started).printed ≡ (some second, 256) ∷ (none, 256) ∷ []
unfolding run step parent_step child_step child_body waitpid wait_one reap wait_status report
    is_exited
one_child_reported_twice = refl

wait_reports_example :
    let s = run step fork_failed main_started in
    (has_finished s ≡ true → reports s.printed ≡ expected s.pids0 s.pids1)
    × ((us : List Turn) × (has_finished (run step us s) ≡ true))
wait_reports_example = wait_reports fork_failed
