-- ===== src/Sync/PosixSemaphore.antt =====
-- Chapter 7/posix_semaphore_example.c: a producer and a consumer under one POSIX semaphore, with a
-- flag and a loop counter that both threads share. The plain variables are read and written in
-- separate turns, in program order.
pub mod Flag
mod Examples
use c_programming_for_linux.Prelude.{
  ℕ, ◌+◌, ◌-◌, Bool, true, false, Option, none, some, ltb, leb, if◌then◌else◌, inc32, dec32, inc16,
}

pub data Thread : Type 0 where
  producer consumer : Thread

-- `loading` reads `counter` in the test of the `while`, and `storing` writes it back, one up. From
-- `checking`, the test of `full_flag`, on the thread is inside the pair of `sem_wait` and `sem_post`.
pub data Pc : Type 0 where
  starting : Pc
  loading : Pc
  storing : (count : ℕ) → Pc
  waiting : Pc
  checking : Pc
  reading : Pc
  writing : (value : ℕ) → Pc
  flagging : Pc
  posting : Pc
  leaving : Pc
  finished : Pc

pub record State : Type 0 where
  pub shared_resource : ℕ
  pub full_flag : Bool
  pub counter : ℕ
  pub sem : ℕ
  pub produce_pc : Pc
  pub consume_pc : Pc

abbrev pub count_limit : ℕ
count_limit = 100

-- `main` after `sem_init(&sem, 0, 1)` and both calls of `pthread_create`.
abbrev pub main_started : State
main_started = record {
  shared_resource = 0;
  full_flag = false;
  counter = 0;
  sem = 1;
  produce_pc = Pc.loading;
  consume_pc = Pc.starting;
}

pub producer_step : Pc → State → Option State
producer_step Pc.starting s = some (record s { produce_pc = Pc.loading })
producer_step Pc.loading s = some (record s { produce_pc = Pc.storing s.counter })
producer_step (Pc.storing count) s = some (record s {
  counter = inc16 count;
  produce_pc = if ltb count count_limit then Pc.waiting else Pc.leaving;
})
producer_step Pc.waiting s =
    if ltb 0 s.sem then some (record s { sem = s.sem - 1; produce_pc = Pc.checking }) else none
producer_step Pc.checking s =
    if s.full_flag
    then some (record s { produce_pc = Pc.posting })
    else some (record s { produce_pc = Pc.reading })
producer_step Pc.reading s = some (record s { produce_pc = Pc.writing s.shared_resource })
producer_step (Pc.writing value) s =
    some (record s { shared_resource = inc32 value; produce_pc = Pc.flagging })
producer_step Pc.flagging s = some (record s { full_flag = true; produce_pc = Pc.posting })
producer_step Pc.posting s = some (record s { sem = s.sem + 1; produce_pc = Pc.loading })
producer_step Pc.leaving s = some (record s { sem = s.sem + 1; produce_pc = Pc.finished })
producer_step Pc.finished s = none

-- The consumer posts the semaphore before its loop.
pub consumer_step : Pc → State → Option State
consumer_step Pc.starting s = some (record s { sem = s.sem + 1; consume_pc = Pc.loading })
consumer_step Pc.loading s = some (record s { consume_pc = Pc.storing s.counter })
consumer_step (Pc.storing count) s = some (record s {
  counter = inc16 count;
  consume_pc = if leb count count_limit then Pc.waiting else Pc.leaving;
})
consumer_step Pc.waiting s =
    if ltb 0 s.sem then some (record s { sem = s.sem - 1; consume_pc = Pc.checking }) else none
consumer_step Pc.checking s =
    if s.full_flag
    then some (record s { consume_pc = Pc.reading })
    else some (record s { consume_pc = Pc.posting })
consumer_step Pc.reading s = some (record s { consume_pc = Pc.writing s.shared_resource })
consumer_step (Pc.writing value) s =
    some (record s { shared_resource = dec32 value; consume_pc = Pc.flagging })
consumer_step Pc.flagging s = some (record s { full_flag = false; consume_pc = Pc.posting })
consumer_step Pc.posting s = some (record s { sem = s.sem + 1; consume_pc = Pc.loading })
consumer_step Pc.leaving s = some (record s { sem = s.sem + 1; consume_pc = Pc.finished })
consumer_step Pc.finished s = none

pub step : Thread → State → Option State
unfolding producer_step consumer_step
step producer s = producer_step s.produce_pc s
step consumer s = consumer_step s.consume_pc s
