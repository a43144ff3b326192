-- ===== src/Sync/Promise.antt =====
-- Chapter 6/future-promise.cpp: a thread that sets a promise's value as of its exit, and main, which
-- gets it from the future. The text is a type that is an argument.
pub mod Delivery
mod Examples
use c_programming_for_linux.Prelude.{Bool, true, false, List, [], ◌∷◌, Option, none, some}

pub data Turn : Type 0 where
  main_turn th1 : Turn

pub data Line (Text : Type 0) : Type 0 where
  main_ready : Line Text
  text_line : Text → Line Text

pub data MainPc (Text : Type 0) : Type 0 where
  making announcing getting : MainPc Text
  printing : Text → MainPc Text
  joining finished : MainPc Text

-- `exiting` has called `set_value_at_thread_exit`.
pub data ThreadPc : Type 0 where
  absent setting exiting finished : ThreadPc

-- The shared state of promise and future: the value, and whether it is ready. `printed` has the newest
-- line first.
pub record State (Text : Type 0) : Type 0 where
  pub value : Option Text
  pub ready : Bool
  pub main_pc : MainPc Text
  pub thread_pc : ThreadPc
  pub printed : List (Line Text)

abbrev pub main_started : {Text : Type 0} → State Text
main_started = record {
  value = none;
  ready = false;
  main_pc = MainPc.making;
  thread_pc = ThreadPc.absent;
  printed = [];
}

-- `future.get()`
pub get : {Text : Type 0} → State Text → Option Text
get s = elim s.ready [ true ↦ s.value | false ↦ none ]

module _ {Text : Type 0} (text : Text) where
  pub main_step : MainPc Text → State Text → Option (State Text)
  unfolding get
  main_step MainPc.making s =
      some (record s { thread_pc = ThreadPc.setting; main_pc = MainPc.announcing })
  main_step MainPc.announcing s =
      some (record s { printed = main_ready ∷ s.printed; main_pc = MainPc.getting })
  main_step MainPc.getting s = elim (get s) [
    | none ↦ none
    | some value ↦ some (record s { main_pc = MainPc.printing value })
  ]
  main_step (MainPc.printing value) s =
      some (record s { printed = text_line value ∷ s.printed; main_pc = MainPc.joining })
  main_step MainPc.joining s = elim s.thread_pc [
    | ThreadPc.finished ↦ some (record s { main_pc = MainPc.finished })
    | _ ↦ none
  ]
  main_step MainPc.finished s = none

  pub thread_step : ThreadPc → State Text → Option (State Text)
  thread_step ThreadPc.absent s = none
  thread_step ThreadPc.setting s =
      some (record s { value = some text; thread_pc = ThreadPc.exiting })
  thread_step ThreadPc.exiting s = some (record s { ready = true; thread_pc = ThreadPc.finished })
  thread_step ThreadPc.finished s = none

  pub step : Turn → State Text → Option (State Text)
  unfolding main_step thread_step
  step main_turn s = main_step s.main_pc s
  step th1 s = thread_step s.thread_pc s
