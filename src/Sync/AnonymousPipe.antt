-- ===== src/Sync/AnonymousPipe.antt =====
-- Chapter 3/anonymous_pipe_example.cpp: a parent that writes a message into a pipe, and its child that
-- reads it. A turn says which process moves and whether the call that it makes fails. The kernel closes
-- what a process still has open when it ends.
pub mod Arrival
pub mod Ends
mod Examples
use c_programming_for_linux.Prelude.{
  ℕ, ◌+◌, Bool, true, false, List, [], ◌∷◌, ◌++◌, Option, none, some, if◌then◌else◌, take, drop,
}
use c_programming_for_linux.Ipc.Buffer.{array, codes, fill, c_str}

pub data Process : Type 0 where
  parent child : Process

pub data ParentPc : Type 0 where
  piping forking closing writing exiting finished : ParentPc
  failed killed : ParentPc

pub data ChildPc : Type 0 where
  absent closing reading printing exiting finished : ChildPc

abbrev pub buff_len : ℕ
buff_len = 64

pub msg : List ℕ
unfolding codes
msg = codes "Sending message to child!"

-- The `strlen(msg) + 1` bytes.
pub sent : List ℕ
sent = msg ++ 0 ∷ []

-- `a_pipe[pipeIn]` and `a_pipe[pipeOut]` of both processes; `buff` is the child's.
pub record State : Type 0 where
  pub pipe : List ℕ
  pub parent_in : Bool
  pub parent_out : Bool
  pub child_in : Bool
  pub child_out : Bool
  pub buff : List ℕ
  pub printed : Option (List ℕ)
  pub parent_pc : ParentPc
  pub child_pc : ChildPc

abbrev pub main_started : State
main_started = record {
  pipe = [];
  parent_in = false;
  parent_out = false;
  child_in = false;
  child_out = false;
  buff = array (buff_len + 1);
  printed = none;
  parent_pc = ParentPc.piping;
  child_pc = ChildPc.absent;
}

abbrev pub either : Bool → Bool → Bool
either a b = if a then true else b

-- `read`: it waits while the pipe is empty and somebody can still write; then it reads nothing.
pub read_pipe : Bool → List ℕ → Option (List ℕ × List ℕ)
read_pipe writers [] = if writers then none else some ([], [])
read_pipe writers (b ∷ bs) = some (take buff_len (b ∷ bs), drop buff_len (b ∷ bs))

-- The end of the parent, which closes its ends of the pipe.
abbrev parent_ends : ParentPc → State → State
parent_ends pc s = record s { parent_in = false; parent_out = false; parent_pc = pc }

-- A `write` that nobody can read any more kills the process.
pub parent_step : Bool → ParentPc → State → Option State
unfolding sent
parent_step fails ParentPc.piping s =
    if fails
    then some (parent_ends ParentPc.failed s)
    else some (record s { parent_in = true; parent_out = true; parent_pc = ParentPc.forking })
parent_step fails ParentPc.forking s =
    if fails
    then some (parent_ends ParentPc.failed s)
    else some (record s {
      child_in = s.parent_in;
      child_out = s.parent_out;
      child_pc = ChildPc.closing;
      parent_pc = ParentPc.closing;
    })
parent_step fails ParentPc.closing s =
    some (record s { parent_in = false; parent_pc = ParentPc.writing })
parent_step fails ParentPc.writing s =
    if either s.parent_in s.child_in
    then if fails
      then some (record s { parent_pc = ParentPc.exiting })
      else some (record s { pipe = s.pipe ++ sent; parent_pc = ParentPc.exiting })
    else some (parent_ends ParentPc.killed s)
parent_step fails ParentPc.exiting s = some (parent_ends ParentPc.finished s)
parent_step fails ParentPc.finished s = none
parent_step fails ParentPc.failed s = none
parent_step fails ParentPc.killed s = none

pub child_step : Bool → ChildPc → State → Option State
unfolding read_pipe
child_step fails ChildPc.absent s = none
child_step fails ChildPc.closing s =
    some (record s { child_out = false; child_pc = ChildPc.reading })
child_step fails ChildPc.reading s =
    if fails
    then some (record s { child_pc = ChildPc.printing })
    else (elim (read_pipe (either s.parent_out s.child_out) s.pipe) [
      | none ↦ none
      | some (bytes, rest) ↦
          some (record s { buff = fill s.buff bytes; pipe = rest; child_pc = ChildPc.printing })
    ])
child_step fails ChildPc.printing s =
    some (record s { printed = some (c_str s.buff); child_pc = ChildPc.exiting })
child_step fails ChildPc.exiting s =
    some (record s { child_in = false; child_out = false; child_pc = ChildPc.finished })
child_step fails ChildPc.finished s = none

pub step : Process × Bool → State → Option State
unfolding parent_step child_step
step (parent, fails) s = parent_step fails s.parent_pc s
step (child, fails) s = child_step fails s.child_pc s

-- A turn in which no call fails.
pub reliable_step : Process → State → Option State
unfolding step
reliable_step p s = step (p, false) s
