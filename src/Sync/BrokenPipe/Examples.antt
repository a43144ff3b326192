-- ===== src/Sync/BrokenPipe/Examples.antt =====
-- Chapter 3/anonymous_pipe_sigpipe_example.c: the child has closed the pipe before the parent writes.
use c_programming_for_linux.Prelude.{◌≡◌, ◌≢◌, ◌⊎◌, refl, Bool, true, false, List, [], ◌∷◌, run}
use c_programming_for_linux.Sync.BrokenPipe.{
  Process, parent, child, ParentPc, main_started, sent, write, parent_step, child_step, step,
}
use c_programming_for_linux.Sync.BrokenPipe.Survival.{ended, parent_survives}

abbrev child_gone : List (Process × Bool)
child_gone =
    (parent, false)
    ∷ (parent, false)
    ∷ (child, false)
    ∷ (child, false)
    ∷ (parent, false)
    ∷ (parent, false)
    ∷ (parent, false)
    ∷ []

nothing_sent :
    ((run step child_gone main_started).pipe ≡ [])
    × ((run step child_gone main_started).parent_pc ≡ ParentPc.finished)
unfolding run step parent_step child_step write
nothing_sent = (refl, refl)

parent_survives_example :
    let s = run step child_gone main_started in
    (s.parent_pc ≢ ParentPc.killed)
    × ((s.pipe ≡ []) ⊎ (s.pipe ≡ sent))
    × ((us : List (Process × Bool)) × (ended (run step us s) ≡ true))
parent_survives_example = parent_survives child_gone
