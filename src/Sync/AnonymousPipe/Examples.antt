-- ===== src/Sync/AnonymousPipe/Examples.antt =====
-- Chapter 3/anonymous_pipe_example.cpp: the child reads before the parent writes.
use c_programming_for_linux.Prelude.{◌≡◌, ◌⊎◌, List, [], ◌∷◌, none, some, run}
use c_programming_for_linux.Sync.AnonymousPipe.{
  Process, parent, child, ChildPc, main_started, msg, reliable_step,
}
use c_programming_for_linux.Sync.AnonymousPipe.Arrival.{piped_message_arrives}

-- The second turn of the child is lost, since the pipe is empty.
abbrev child_first : List Process
child_first =
    parent ∷ parent ∷ child ∷ child ∷ parent ∷ parent ∷ child ∷ child ∷ child ∷ parent ∷ []

piped_message_arrives_example :
    let s = run reliable_step child_first main_started in
    ((s.printed ≡ none) ⊎ (s.printed ≡ some msg))
    × (s.child_pc ≡ ChildPc.finished → s.printed ≡ some msg)
piped_message_arrives_example = piped_message_arrives child_first
