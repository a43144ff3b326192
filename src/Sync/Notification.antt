-- ===== src/Sync/Notification.antt =====
-- Chapter 9/condition_var.cpp: a thread that waits on a condition variable without a predicate, and
-- one that notifies it once. A turn may also be a wake-up without a notification, which the library
-- allows.
pub mod Wakeups
mod Examples
use c_programming_for_linux.Prelude.{ℕ, Bool, true, false, Option, none, some, if◌then◌else◌}

pub data Turn : Type 0 where
  t1 t2 : Turn
  spurious_wakeup : Turn

-- `asleep` has released the mutex; `relocking` has been woken.
pub data WaitingPc : Type 0 where
  locking waiting asleep relocking processing unlocking finished : WaitingPc

pub data DonePc : Type 0 where
  announcing notifying finished : DonePc

pub record State : Type 0 where
  pub locked : Bool
  pub waiting_pc : WaitingPc
  pub done_pc : DonePc

abbrev pub main_started : State
main_started = record {
  locked = false;
  waiting_pc = WaitingPc.locking;
  done_pc = DonePc.announcing;
}

-- `cond_var.notify_one()`
pub notify : WaitingPc → WaitingPc
notify WaitingPc.asleep = WaitingPc.relocking
notify pc = pc

-- `waiting`
pub waiting_step : WaitingPc → State → Option State
waiting_step WaitingPc.locking s =
    if s.locked then none else some (record s { locked = true; waiting_pc = WaitingPc.waiting })
waiting_step WaitingPc.waiting s = some (record s { locked = false; waiting_pc = WaitingPc.asleep })
waiting_step WaitingPc.asleep s = none
waiting_step WaitingPc.relocking s =
    if s.locked then none else some (record s { locked = true; waiting_pc = WaitingPc.processing })
waiting_step WaitingPc.processing s = some (record s { waiting_pc = WaitingPc.unlocking })
waiting_step WaitingPc.unlocking s =
    some (record s { locked = false; waiting_pc = WaitingPc.finished })
waiting_step WaitingPc.finished s = none

-- `done`
pub done_step : DonePc → State → Option State
unfolding notify
done_step DonePc.announcing s = some (record s { done_pc = DonePc.notifying })
done_step DonePc.notifying s =
    some (record s { waiting_pc = notify s.waiting_pc; done_pc = DonePc.finished })
done_step DonePc.finished s = none

pub wake_up : WaitingPc → State → Option State
wake_up WaitingPc.asleep s = some (record s { waiting_pc = WaitingPc.relocking })
wake_up pc s = none

pub step : Turn → State → Option State
unfolding waiting_step done_step wake_up
step t1 s = waiting_step s.waiting_pc s
step t2 s = done_step s.done_pc s
step spurious_wakeup s = wake_up s.waiting_pc s
