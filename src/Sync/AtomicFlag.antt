-- ===== src/Sync/AtomicFlag.antt =====
-- Chapter 7/cpp_atomic_flags.cpp: two loops that wait on one `atomic_flag` and notify each other.
-- A turn is one atomic access. `wait` compares the flag and falls asleep in one access, and a sleeper
-- tests again once it is notified; wake-ups without a notification are left out.
pub mod Alternation
mod Examples
use c_programming_for_linux.Prelude.{
  ℕ, ◌+◌, Bool, true, false, Option, none, some, ltb, if◌then◌else◌, inc16, dec16,
}

pub data Thread : Type 0 where
  increment decrement : Thread

-- `waiting` is the test in `condFlag.wait`; `switching` is `test_and_set` or `clear`.
pub data Pc : Type 0 where
  looping waiting asleep switching updating notifying finished : Pc

pub record State : Type 0 where
  pub cond_flag : Bool
  pub shared_resource : ℕ
  pub inc_pc : Pc
  pub inc_i : ℕ
  pub dec_pc : Pc
  pub dec_i : ℕ

abbrev pub limit : ℕ
limit = 100

-- `main` sets the flag before it starts the threads.
abbrev pub main_started : State
main_started = record {
  cond_flag = true;
  shared_resource = 0;
  inc_pc = Pc.looping;
  inc_i = 0;
  dec_pc = Pc.looping;
  dec_i = 0;
}

-- `notify_one` wakes the other thread if it sleeps.
pub wake : Pc → Pc
wake Pc.asleep = Pc.waiting
wake pc = pc

pub increment_step : Pc → State → Option State
unfolding wake
increment_step Pc.looping s =
    if ltb s.inc_i limit
    then some (record s { inc_pc = Pc.waiting })
    else some (record s { inc_pc = Pc.finished })
increment_step Pc.waiting s =
    if s.cond_flag
    then some (record s { inc_pc = Pc.asleep })
    else some (record s { inc_pc = Pc.switching })
increment_step Pc.asleep s = none
increment_step Pc.switching s = some (record s { cond_flag = true; inc_pc = Pc.updating })
increment_step Pc.updating s =
    some (record s { shared_resource = inc16 s.shared_resource; inc_pc = Pc.notifying })
increment_step Pc.notifying s =
    some (record s { dec_pc = wake s.dec_pc; inc_pc = Pc.looping; inc_i = s.inc_i + 1 })
increment_step Pc.finished s = none

pub decrement_step : Pc → State → Option State
unfolding wake
decrement_step Pc.looping s =
    if ltb s.dec_i limit
    then some (record s { dec_pc = Pc.waiting })
    else some (record s { dec_pc = Pc.finished })
decrement_step Pc.waiting s =
    if s.cond_flag
    then some (record s { dec_pc = Pc.switching })
    else some (record s { dec_pc = Pc.asleep })
decrement_step Pc.asleep s = none
decrement_step Pc.switching s = some (record s { cond_flag = false; dec_pc = Pc.updating })
decrement_step Pc.updating s =
    some (record s { shared_resource = dec16 s.shared_resource; dec_pc = Pc.notifying })
decrement_step Pc.notifying s =
    some (record s { inc_pc = wake s.inc_pc; dec_pc = Pc.looping; dec_i = s.dec_i + 1 })
decrement_step Pc.finished s = none

pub step : Thread → State → Option State
unfolding increment_step decrement_step
step increment s = increment_step s.inc_pc s
step decrement s = decrement_step s.dec_pc s
