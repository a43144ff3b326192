-- ===== src/Sync/NamedPipe.antt =====
-- Chapter 3/cpp_and_named_pipe.cpp: a parent and a child that exchange messages over one named pipe,
-- which both open for reading and writing. A turn says which process moves and whether the call that
-- it makes fails. The pipe is a queue of bytes that a `read` waits on, and a `write` of so few bytes does
-- not wait. The name is a FIFO's or free; if it is another file's, both processes end at `is_fifo`.
pub mod Exchange
pub mod Printed
mod Examples
use c_programming_for_linux.Prelude.{
  ℕ, Bool, true, false, List, [], ◌∷◌, ◌++◌, Option, none, some, if◌then◌else◌, take, drop,
}
use c_programming_for_linux.Ipc.Buffer.{codes}

pub data Turn : Type 0 where
  parent child : (fails : Bool) → Turn

-- The parent runs `main` from its start; `testing` is `is_fifo`. A failed `fork` exits; a failed `read`
-- throws, since its -1 becomes the length of a string.
pub data ParentPc : Type 0 where
  checking making forking testing opening writing reading printing closing removing : ParentPc
  finished exited threw : ParentPc

pub data ChildPc : Type 0 where
  absent testing opening reading printing writing closing removing finished threw : ChildPc

abbrev pub buf_size : ℕ
buf_size = 64

pub message : List ℕ
unfolding codes
message = codes "Sending some message to the child!"

pub response_msg : List ℕ
unfolding codes
response_msg = codes "Child printed the message!"

-- `fork_failed` says whether "Process creation failed" has been printed, `open_failed` whether "Child
-- cannot open the pipe!" has; the two texts are what follows "Parent: " and "Child: ". `exists` says whether the name of the pipe does; `pipe` is its content.
pub record State : Type 0 where
  pub exists : Bool
  pub pipe : List ℕ
  pub parent_pc : ParentPc
  pub child_pc : ChildPc
  pub parent_text : List ℕ
  pub child_text : List ℕ
  pub parent_printed : Option (List ℕ)
  pub child_printed : Option (List ℕ)
  pub fork_failed : Bool
  pub open_failed : Bool

abbrev pub main_started : Bool → State
main_started exists = record {
  exists = exists;
  pipe = [];
  parent_pc = ParentPc.checking;
  child_pc = ChildPc.absent;
  parent_text = [];
  child_text = [];
  parent_printed = none;
  child_printed = none;
  fork_failed = false;
  open_failed = false;
}

-- `read`: up to `buf_size` bytes and the rest; it waits while the pipe is empty.
pub read_pipe : List ℕ → Option (List ℕ × List ℕ)
read_pipe [] = none
read_pipe (b ∷ bs) = some (take buf_size (b ∷ bs), drop buf_size (b ∷ bs))

pub parent_step : ParentPc → Bool → State → Option State
parent_step ParentPc.checking fails s =
    if s.exists
    then some (record s { parent_pc = ParentPc.forking })
    else some (record s { parent_pc = ParentPc.making })
parent_step ParentPc.making fails s =
    if fails
    then some (record s { parent_pc = ParentPc.forking })
    else some (record s { exists = true; parent_pc = ParentPc.forking })
parent_step ParentPc.forking fails s =
    if fails
    then some (record s { fork_failed = true; parent_pc = ParentPc.exited })
    else some (record s { parent_pc = ParentPc.testing; child_pc = ChildPc.testing })
parent_step ParentPc.testing fails s =
    if s.exists
    then some (record s { parent_pc = ParentPc.opening })
    else some (record s { parent_pc = ParentPc.finished })
parent_step ParentPc.opening fails s =
    if fails
    then some (record s { parent_pc = ParentPc.removing })
    else if s.exists
    then some (record s { parent_pc = ParentPc.writing })
    else some (record s { parent_pc = ParentPc.removing })
parent_step ParentPc.writing fails s =
    if fails
    then some (record s { parent_pc = ParentPc.reading })
    else some (record s { pipe = s.pipe ++ message; parent_pc = ParentPc.reading })
parent_step ParentPc.reading fails s =
    if fails then some (record s { parent_pc = ParentPc.threw }) else (elim (read_pipe s.pipe) [
      | none ↦ none
      | some (text, rest) ↦
          some (record s { parent_text = text; pipe = rest; parent_pc = ParentPc.printing })
    ])
parent_step ParentPc.printing fails s =
    some (record s { parent_printed = some s.parent_text; parent_pc = ParentPc.closing })
parent_step ParentPc.closing fails s = some (record s { parent_pc = ParentPc.removing })
parent_step ParentPc.removing fails s =
    some (record s { exists = false; parent_pc = ParentPc.finished })
parent_step ParentPc.finished fails s = none
parent_step ParentPc.exited fails s = none
parent_step ParentPc.threw fails s = none

pub child_step : ChildPc → Bool → State → Option State
child_step ChildPc.absent fails s = none
child_step ChildPc.testing fails s =
    if s.exists
    then some (record s { child_pc = ChildPc.opening })
    else some (record s { child_pc = ChildPc.finished })
child_step ChildPc.opening fails s =
    if fails
    then some (record s { open_failed = true; child_pc = ChildPc.removing })
    else if s.exists
    then some (record s { child_pc = ChildPc.reading })
    else some (record s { open_failed = true; child_pc = ChildPc.removing })
child_step ChildPc.reading fails s =
    if fails then some (record s { child_pc = ChildPc.threw }) else (elim (read_pipe s.pipe) [
      | none ↦ none
      | some (text, rest) ↦
          some (record s { child_text = text; pipe = rest; child_pc = ChildPc.printing })
    ])
child_step ChildPc.printing fails s =
    some (record s { child_printed = some s.child_text; child_pc = ChildPc.writing })
child_step ChildPc.writing fails s =
    if fails
    then some (record s { child_pc = ChildPc.closing })
    else some (record s { pipe = s.pipe ++ response_msg; child_pc = ChildPc.closing })
child_step ChildPc.closing fails s = some (record s { child_pc = ChildPc.removing })
child_step ChildPc.removing fails s =
    some (record s { exists = false; child_pc = ChildPc.finished })
child_step ChildPc.finished fails s = none
child_step ChildPc.threw fails s = none

pub step : Turn → State → Option State
unfolding parent_step child_step
step (parent fails) s = parent_step s.parent_pc fails s
step (child fails) s = child_step s.child_pc fails s
