-- ===== src/Sync/NamedPipe/Examples.antt =====
-- Chapter 3/cpp_and_named_pipe.cpp: runs of the two processes.
use c_programming_for_linux.Prelude.{
  ◌≡◌, ◌⊎◌, refl, true, false, List, [], ◌∷◌, ◌++◌, none, some, run,
}
use c_programming_for_linux.Sync.NamedPipe.{
  Turn, parent, child, main_started, step, message, response_msg, read_pipe,
}
use c_programming_for_linux.Sync.NamedPipe.Printed.{texts_exchanged}

-- Both open the pipe, and the parent writes.
abbrev written : List Turn
written =
    parent false
    ∷ parent false
    ∷ parent false
    ∷ parent false
    ∷ parent false
    ∷ parent false
    ∷ child false
    ∷ child false
    ∷ []

-- The child reads first, and answers.
abbrev in_order : List Turn
in_order = written ++ child false ∷ child false ∷ child false ∷ parent false ∷ parent false ∷ []

response_printed : (run step in_order (main_started false)).parent_printed ≡ some response_msg
unfolding run step read_pipe message response_msg
response_printed = refl

texts_exchanged_example :
    let s = run step in_order (main_started false) in
    ((s.child_printed ≡ none) ⊎ (s.child_printed ≡ some message))
    × (s.open_failed ≡ true → s.child_printed ≡ none)
    × ((s.parent_printed ≡ none)
        ⊎ ((s.parent_printed ≡ some message) × (s.child_printed ≡ none))
        ⊎ ((s.parent_printed ≡ some response_msg) × (s.child_printed ≡ some message)))
    × (s.fork_failed ≡ true
        → (s.parent_printed ≡ none) × (s.child_printed ≡ none) × (s.open_failed ≡ false))
texts_exchanged_example = texts_exchanged false in_order
