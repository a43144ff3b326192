-- ===== src/Sync/FifoExchange.antt =====
-- Chapter 3/named_pipe_example.c: a parent and a child that exchange messages over a FIFO, which both
-- open for reading and writing. A turn says which process moves and whether the call that it makes
-- fails. What is in the FIFO is lost once nobody has it open. The name is a FIFO's at the start, which
-- an earlier run has left, or it is free; a file of another kind has not got it.
-- The lines on a failed fork or open are left out.
pub mod Bounds
pub mod Contents
pub mod Texts
mod Examples
use c_programming_for_linux.Prelude.{
  ℕ, ◌+◌, Bool, true, false, List, [], ◌∷◌, ◌++◌, Option, none, some, ltb, if◌then◌else◌, take,
  drop, length, replicate,
}
use c_programming_for_linux.Ipc.Buffer.{array, codes, fill, c_str}

pub data Process : Type 0 where
  parent child : Process

-- A process that read behind the end of an array is `faulted`.
pub data ParentPc : Type 0 where
  making forking opening writing clearing reading printing closing finished faulted : ParentPc

pub data ChildPc : Type 0 where
  absent opening reading testing printing writing closing finished faulted : ChildPc

abbrev pub buff_len : ℕ
buff_len = 64

-- The texts, and the bytes that are written, with the zero at their ends.
pub message : List ℕ
unfolding codes
message = codes "Sending some message to the child!"

pub response_msg : List ℕ
unfolding codes
response_msg = codes "Child printed the message!\n"

abbrev pub terminated : List ℕ → List ℕ
terminated text = text ++ 0 ∷ []

-- `exists` says whether there is a FIFO of this name, `received` says whether the child's `bytes_recv` is positive.
pub record State : Type 0 where
  pub exists : Bool
  pub fifo : List ℕ
  pub parent_open : Bool
  pub child_open : Bool
  pub parent_message : List ℕ
  pub child_message : List ℕ
  pub received : Bool
  pub parent_pc : ParentPc
  pub child_pc : ChildPc
  pub parent_printed : Option (List ℕ)
  pub child_printed : Option (List ℕ)

pub main_started : Bool → State
main_started exists = record {
  exists = exists;
  fifo = [];
  parent_open = false;
  child_open = false;
  parent_message = fill (array buff_len) message;
  child_message = array buff_len;
  received = false;
  parent_pc = ParentPc.making;
  child_pc = ChildPc.absent;
  parent_printed = none;
  child_printed = none;
}

-- `read` on a FIFO that the process itself could write to: it waits while nothing is there.
pub read_fifo : List ℕ → Option (List ℕ × List ℕ)
read_fifo [] = none
read_fifo (b ∷ bs) = some (take buff_len (b ∷ bs), drop buff_len (b ∷ bs))

-- `memset(message, 0, strlen(message) + 1)`
pub clear : List ℕ → List ℕ
clear buffer = fill buffer (replicate (length (c_str buffer) + 1) 0)

-- What is left in the FIFO after a process has closed it.
abbrev pub kept : Bool → List ℕ → List ℕ
kept other_open bytes = if other_open then bytes else []

-- The calls on a descriptor of -1 fail, and the `open` of a name that is free.
abbrev pub fails_on : Bool → Bool → Bool
fails_on is_open fails = if is_open then fails else true

pub parent_step : Bool → ParentPc → State → Option State
unfolding read_fifo clear
parent_step fails ParentPc.making s =
    if fails
    then some (record s { parent_pc = ParentPc.forking })
    else some (record s { exists = true; parent_pc = ParentPc.forking })
parent_step fails ParentPc.forking s =
    if fails
    then some (record s { parent_pc = ParentPc.finished })
    else some (record s { child_pc = ChildPc.opening; parent_pc = ParentPc.opening })
parent_step fails ParentPc.opening s =
    some
      (record s { parent_open = if fails then false else s.exists; parent_pc = ParentPc.writing })
parent_step fails ParentPc.writing s =
    if fails_on s.parent_open fails
    then some (record s { parent_pc = ParentPc.clearing })
    else some (record s { fifo = s.fifo ++ terminated message; parent_pc = ParentPc.clearing })
parent_step fails ParentPc.clearing s =
    some (record s { parent_message = clear s.parent_message; parent_pc = ParentPc.reading })
parent_step fails ParentPc.reading s =
    if fails_on s.parent_open fails
    then some (record s { parent_pc = ParentPc.printing })
    else (elim (read_fifo s.fifo) [
      | none ↦ none
      | some (bytes, rest) ↦ some (record s {
        parent_message = fill s.parent_message bytes;
        fifo = rest;
        parent_pc = ParentPc.printing;
      })
    ])
parent_step fails ParentPc.printing s =
    if ltb (length (c_str s.parent_message)) (length s.parent_message)
    then some
        (record s { parent_printed = some (c_str s.parent_message); parent_pc = ParentPc.closing })
    else some (record s { parent_pc = ParentPc.faulted })
parent_step fails ParentPc.closing s = some (record s {
  parent_open = false;
  fifo = kept s.child_open s.fifo;
  parent_pc = ParentPc.finished;
})
parent_step fails ParentPc.finished s = none
parent_step fails ParentPc.faulted s = none

-- A failed read leaves -1 in the `size_t` bytes_recv, which is positive.
pub child_step : Bool → ChildPc → State → Option State
unfolding read_fifo
child_step fails ChildPc.absent s = none
child_step fails ChildPc.opening s =
    if fails_on s.exists fails
    then some (record s { child_pc = ChildPc.finished })
    else some (record s { child_open = true; child_pc = ChildPc.reading })
child_step fails ChildPc.reading s =
    if fails
    then some (record s { received = true; child_pc = ChildPc.testing })
    else (elim (read_fifo s.fifo) [
      | none ↦ none
      | some (bytes, rest) ↦ some (record s {
        child_message = fill s.child_message bytes;
        fifo = rest;
        received = ltb 0 (length bytes);
        child_pc = ChildPc.testing;
      })
    ])
child_step fails ChildPc.testing s =
    if s.received
    then some (record s { child_pc = ChildPc.printing })
    else some (record s {
      child_open = false;
      fifo = kept s.parent_open s.fifo;
      child_pc = ChildPc.finished;
    })
child_step fails ChildPc.printing s =
    if ltb (length (c_str s.child_message)) (length s.child_message)
    then some
        (record s { child_printed = some (c_str s.child_message); child_pc = ChildPc.writing })
    else some (record s { child_pc = ChildPc.faulted })
child_step fails ChildPc.writing s =
    if fails
    then some (record s { child_pc = ChildPc.closing })
    else some (record s { fifo = s.fifo ++ terminated response_msg; child_pc = ChildPc.closing })
child_step fails ChildPc.closing s =
    some (record s {
      child_open = false;
      fifo = kept s.parent_open s.fifo;
      child_pc = ChildPc.finished;
    })
child_step fails ChildPc.finished s = none
child_step fails ChildPc.faulted s = none

pub step : Process × Bool → State → Option State
unfolding parent_step child_step
step (parent, fails) s = parent_step fails s.parent_pc s
step (child, fails) s = child_step fails s.child_pc s

-- A turn in which no call fails.
pub reliable_step : Process → State → Option State
unfolding step
reliable_step p s = step (p, false) s
