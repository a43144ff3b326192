-- ===== src/Sync/FifoExchange/Examples.antt =====
-- Chapter 3/named_pipe_example.c: an exchange in order, and a FIFO that holds both texts.
use c_programming_for_linux.Prelude.{
  ◌<◌, ◌≡◌, ◌≢◌, ◌⊎◌, refl, Bool, true, false, List, [], ◌∷◌, none, some, length, run,
}
use c_programming_for_linux.Ipc.Buffer.{c_str, array}
use c_programming_for_linux.Sync.FifoExchange.{
  Process, parent, child, ParentPc, ChildPc, buff_len, message, response_msg, main_started,
  parent_step, child_step, step, reliable_step,
}
use c_programming_for_linux.Sync.FifoExchange.Bounds.{fifo_texts_fit}
use c_programming_for_linux.Sync.FifoExchange.Texts.{fifo_texts}

-- The child's read fails before the parent writes.
abbrev both_written : List (Process × Bool)
both_written =
    (parent, false)
    ∷ (parent, false)
    ∷ (child, false)
    ∷ (child, true)
    ∷ (child, false)
    ∷ (child, false)
    ∷ (child, false)
    ∷ (parent, false)
    ∷ (parent, false)
    ∷ []

both_texts : length (run step both_written (main_started false)).fifo ≡ 63
unfolding run step parent_step child_step main_started message response_msg c_str array
both_texts = refl

fifo_texts_fit_example :
    let s = run step both_written (main_started false) in
    (length s.fifo < buff_len) × (s.parent_pc ≢ ParentPc.faulted) × (s.child_pc ≢ ChildPc.faulted)
fifo_texts_fit_example = fifo_texts_fit false both_written

abbrev in_order : List Process
in_order =
    parent ∷ parent ∷ parent ∷ parent ∷ child ∷ child ∷ child ∷ child ∷ child ∷ parent ∷ parent
    ∷ parent ∷ []

fifo_texts_example :
    let s = run reliable_step in_order (main_started false) in
    ((s.child_printed ≡ none) ⊎ (s.child_printed ≡ some message))
    × ((s.parent_printed ≡ none)
        ⊎ ((s.parent_printed ≡ some message) × (s.child_printed ≡ none))
        ⊎ ((s.parent_printed ≡ some response_msg) × (s.child_printed ≡ some message)))
fifo_texts_example = fifo_texts false in_order
