-- ===== src/Sync/DetachedThread.antt =====
-- Chapter 2/thread_creation_example.cpp: a thread that is detached, a thread that is joined, and the
-- end of the process, which stops whatever still runs. Every insertion into `cout` is a turn of its
-- own, which is taken to be whole, so that what one thread prints may stand inside a line of another.
pub mod Pieces
pub mod Endings
mod Examples
use c_programming_for_linux.Prelude.{Bool, true, false, List, [], ◌∷◌, Option, none, some}

pub data Turn : Type 0 where
  main_turn detached_turn joined_turn : Turn

-- The four lines on `joinable`, and what is inserted for one: its text, the result, and `endl`.
pub data Test : Type 0 where
  before_detach after_detach before_join after_join : Test

pub data Part : Type 0 where
  text result newline : Part

-- What is inserted into `cout`.
pub data Piece : Type 0 where
  starting_creator exiting_creator : Piece
  starting_detached exiting_detached : Piece
  starting_joined exiting_joined : Piece
  label : Test → Piece
  value : (joinable : Bool) → Piece
  endl : Piece

-- `thread_creator`, and the return of `main`.
pub data MainPc : Type 0 where
  starting making1 detaching making2 joining exiting returning finished : MainPc
  testing : Test → Part → MainPc

-- `detached_routine` and `joined_routine`.
pub data Pc : Type 0 where
  absent starting exiting finished : Pc

-- `t1` and `t2` say whether the object stands for a thread. `printed` has the newest piece first.
pub record State : Type 0 where
  pub t1 : Bool
  pub t2 : Bool
  pub main_pc : MainPc
  pub detached_pc : Pc
  pub joined_pc : Pc
  pub printed : List Piece

abbrev pub main_started : State
main_started = record {
  t1 = false;
  t2 = false;
  main_pc = MainPc.starting;
  detached_pc = Pc.absent;
  joined_pc = Pc.absent;
  printed = [];
}

abbrev pub print : Piece → State → State
print piece s = record s { printed = piece ∷ s.printed }

abbrev pub joinable : Test → State → Bool
joinable before_detach s = s.t1
joinable after_detach s = s.t1
joinable before_join s = s.t2
joinable after_join s = s.t2

-- What comes after the line.
abbrev pub next : Test → MainPc
next before_detach = MainPc.detaching
next after_detach = MainPc.making2
next before_join = MainPc.joining
next after_join = MainPc.exiting

pub main_step : MainPc → State → Option State
main_step MainPc.starting s = some (record (print starting_creator s) { main_pc = MainPc.making1 })
main_step MainPc.making1 s = some (record s {
  t1 = true;
  detached_pc = Pc.starting;
  main_pc = MainPc.testing before_detach Part.text;
})
main_step (MainPc.testing t Part.text) s =
    some (record (print (label t) s) { main_pc = MainPc.testing t Part.result })
main_step (MainPc.testing t Part.result) s =
    some (record (print (value (joinable t s)) s) { main_pc = MainPc.testing t Part.newline })
main_step (MainPc.testing t Part.newline) s = some (record (print endl s) { main_pc = next t })
main_step MainPc.detaching s =
    some (record s { t1 = false; main_pc = MainPc.testing after_detach Part.text })
main_step MainPc.making2 s = some (record s {
  t2 = true;
  joined_pc = Pc.starting;
  main_pc = MainPc.testing before_join Part.text;
})
main_step MainPc.joining s = elim s.joined_pc [
  | Pc.finished ↦ some (record s { t2 = false; main_pc = MainPc.testing after_join Part.text })
  | _ ↦ none
]
main_step MainPc.exiting s = some (record (print exiting_creator s) { main_pc = MainPc.returning })
main_step MainPc.returning s = some (record s { main_pc = MainPc.finished })
main_step MainPc.finished s = none

-- No thread moves after the end of the process.
abbrev pub process_runs : MainPc → Bool
process_runs MainPc.finished = false
process_runs pc = true

pub detached_step : Bool → Pc → State → Option State
detached_step true Pc.starting s =
    some (record (print starting_detached s) { detached_pc = Pc.exiting })
detached_step true Pc.exiting s =
    some (record (print exiting_detached s) { detached_pc = Pc.finished })
detached_step runs pc s = none

pub joined_step : Bool → Pc → State → Option State
joined_step true Pc.starting s = some (record (print starting_joined s) { joined_pc = Pc.exiting })
joined_step true Pc.exiting s = some (record (print exiting_joined s) { joined_pc = Pc.finished })
joined_step runs pc s = none

pub step : Turn → State → Option State
unfolding main_step detached_step joined_step
step main_turn s = main_step s.main_pc s
step detached_turn s = detached_step (process_runs s.main_pc) s.detached_pc s
step joined_turn s = joined_step (process_runs s.main_pc) s.joined_pc s
