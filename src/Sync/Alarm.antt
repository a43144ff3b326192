-- ===== src/Sync/Alarm.antt =====
-- Chapter 8/posix-alarm.cpp: a loop that runs until the handler of a timer's signal stops it. A turn of
-- main says whether the call that it makes fails, which the program does not test; a turn of the timer
-- is an expiry, whose handler interrupts main.
pub mod Stopping
mod Examples
use c_programming_for_linux.Prelude.{ℕ, ◌+◌, Bool, true, false, Option, none, some, if◌then◌else◌}

pub data Turn : Type 0 where
  main_turn : (fails : Bool) → Turn
  expiry : Turn

-- `testing` is the head of the loop; `killed` the end by a signal without a handler.
pub data MainPc : Type 0 where
  installing arming announcing testing sleeping finished killed : MainPc

-- `handled` counts the lines "Timer expired".
pub record State : Type 0 where
  pub has_handler : Bool
  pub is_armed : Bool
  pub continue_execution : Bool
  pub handled : ℕ
  pub main_pc : MainPc

abbrev pub main_started : State
main_started = record {
  has_handler = false;
  is_armed = false;
  continue_execution = true;
  handled = 0;
  main_pc = MainPc.installing;
}

pub main_step : Bool → MainPc → State → Option State
main_step fails MainPc.installing s =
    some (record s { has_handler = if fails then false else true; main_pc = MainPc.arming })
main_step fails MainPc.arming s =
    some (record s { is_armed = if fails then false else true; main_pc = MainPc.announcing })
main_step fails MainPc.announcing s = some (record s { main_pc = MainPc.testing })
main_step fails MainPc.testing s =
    if s.continue_execution
    then some (record s { main_pc = MainPc.sleeping })
    else some (record s { main_pc = MainPc.finished })
main_step fails MainPc.sleeping s = some (record s { main_pc = MainPc.testing })
main_step fails MainPc.finished s = none
main_step fails MainPc.killed s = none

-- The handler.
pub handle : State → State
handle s = record s { handled = s.handled + 1; continue_execution = false }

-- The process is there.
abbrev pub is_alive : MainPc → Bool
is_alive MainPc.finished = false
is_alive MainPc.killed = false
is_alive pc = true

-- The timer expires again and again; a signal ends the sleep.
pub expire : State → Option State
unfolding handle
expire s =
    if is_alive s.main_pc
    then if s.is_armed
      then if s.has_handler
        then some (record (handle s) {
          main_pc = elim s.main_pc [ MainPc.sleeping ↦ MainPc.testing | pc ↦ pc ];
        })
        else some (record s { main_pc = MainPc.killed })
      else none
    else none

pub step : Turn → State → Option State
unfolding main_step expire
step (main_turn fails) s = main_step fails s.main_pc s
step expiry s = expire s
