-- ===== src/Sync/BrokenPipe.antt =====
-- Chapter 3/anonymous_pipe_sigpipe_example.c: a parent that ignores SIGPIPE and writes into a pipe which
-- its child closes. A turn says which process moves and whether the call that it makes fails; the parent
-- goes on after a failed fork, since only 0 is tested. That the kernel closes what is open when a
-- process ends matters to nobody here and is left out.
pub mod Survival
mod Examples
use c_programming_for_linux.Prelude.{
  ℕ, Bool, true, false, List, [], ◌∷◌, ◌++◌, Option, none, some, if◌then◌else◌,
}
use c_programming_for_linux.Ipc.Buffer.{codes}

pub data Process : Type 0 where
  parent child : Process

pub data ParentPc : Type 0 where
  piping forking ignoring closing writing finished : ParentPc
  failed killed : ParentPc

pub data ChildPc : Type 0 where
  absent closing_out closing_in finished : ChildPc

-- The `strlen(msg) + 1` bytes.
pub sent : List ℕ
unfolding codes
sent = codes "Sending message to child!" ++ 0 ∷ []

-- `a_pipe` of both processes, by what is open, and whether the parent ignores SIGPIPE.
pub record State : Type 0 where
  pub pipe : List ℕ
  pub ignores : Bool
  pub parent_in : Bool
  pub parent_out : Bool
  pub child_in : Bool
  pub child_out : Bool
  pub parent_pc : ParentPc
  pub child_pc : ChildPc

abbrev pub main_started : State
main_started = record {
  pipe = [];
  ignores = false;
  parent_in = false;
  parent_out = false;
  child_in = false;
  child_out = false;
  parent_pc = ParentPc.piping;
  child_pc = ChildPc.absent;
}

-- `write` to the pipe: without a reader it fails, or kills the process that does not ignore the signal.
pub write : Bool → State → State
write fails s =
    if (if s.parent_in then true else s.child_in)
    then if fails
      then record s { parent_pc = ParentPc.finished }
      else record s { pipe = s.pipe ++ sent; parent_pc = ParentPc.finished }
    else if s.ignores
    then record s { parent_pc = ParentPc.finished }
    else record s { parent_pc = ParentPc.killed }

pub parent_step : Bool → ParentPc → State → Option State
unfolding write
parent_step fails ParentPc.piping s =
    if fails
    then some (record s { parent_pc = ParentPc.finished })
    else some (record s { parent_in = true; parent_out = true; parent_pc = ParentPc.forking })
parent_step fails ParentPc.forking s =
    if fails
    then some (record s { parent_pc = ParentPc.ignoring })
    else some (record s {
      child_in = s.parent_in;
      child_out = s.parent_out;
      child_pc = ChildPc.closing_out;
      parent_pc = ParentPc.ignoring;
    })
parent_step fails ParentPc.ignoring s =
    if fails
    then some (record s { parent_pc = ParentPc.failed })
    else some (record s { ignores = true; parent_pc = ParentPc.closing })
parent_step fails ParentPc.closing s =
    some (record s { parent_in = false; parent_pc = ParentPc.writing })
parent_step fails ParentPc.writing s = some (write fails s)
parent_step fails ParentPc.finished s = none
parent_step fails ParentPc.failed s = none
parent_step fails ParentPc.killed s = none

pub child_step : ChildPc → State → Option State
child_step ChildPc.absent s = none
child_step ChildPc.closing_out s =
    some (record s { child_out = false; child_pc = ChildPc.closing_in })
child_step ChildPc.closing_in s = some (record s { child_in = false; child_pc = ChildPc.finished })
child_step ChildPc.finished s = none

pub step : Process × Bool → State → Option State
unfolding parent_step child_step
step (parent, fails) s = parent_step fails s.parent_pc s
step (child, fails) s = child_step s.child_pc s
