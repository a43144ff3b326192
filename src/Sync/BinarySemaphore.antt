-- ===== src/Sync/BinarySemaphore.antt =====
-- Chapter 7/cpp_sem_example.cpp: a producer and a consumer that hand one counter to and fro by two
-- binary semaphores. A turn is one shared access; the lines printed are left out.
pub mod Handover
mod Examples
use c_programming_for_linux.Prelude.{
  ℕ, ◌+◌, ◌-◌, Bool, true, false, Option, none, some, ltb, leb, if◌then◌else◌, inc32, dec32,
}

pub data Thread : Type 0 where
  producer consumer : Thread

-- `looping` is the test of the `for`, `acquiring` the semaphore that the thread waits for.
pub data Pc : Type 0 where
  looping acquiring updating releasing finished : Pc

pub record State : Type 0 where
  pub shared_resource : ℕ
  pub sem_to_produce : ℕ
  pub sem_to_consume : ℕ
  pub produce_pc : Pc
  pub produce_i : ℕ
  pub consume_pc : Pc
  pub consume_i : ℕ

abbrev pub limit : ℕ
limit = 65536

-- `main` releases `sem_to_produce` before it starts the threads.
abbrev pub main_started : State
main_started = record {
  shared_resource = 0;
  sem_to_produce = 1;
  sem_to_consume = 0;
  produce_pc = Pc.looping;
  produce_i = 0;
  consume_pc = Pc.looping;
  consume_i = 0;
}

pub producer_step : Pc → State → Option State
producer_step Pc.looping s =
    if ltb s.produce_i limit
    then some (record s { produce_pc = Pc.acquiring })
    else some (record s { produce_pc = Pc.finished })
producer_step Pc.acquiring s =
    if ltb 0 s.sem_to_produce
    then some (record s { sem_to_produce = s.sem_to_produce - 1; produce_pc = Pc.updating })
    else none
producer_step Pc.updating s =
    some (record s { shared_resource = inc32 s.shared_resource; produce_pc = Pc.releasing })
producer_step Pc.releasing s = some (record s {
  sem_to_consume = s.sem_to_consume + 1;
  produce_pc = Pc.looping;
  produce_i = s.produce_i + 1;
})
producer_step Pc.finished s = none

-- The consumer's loop runs while `i <= limit`.
pub consumer_step : Pc → State → Option State
consumer_step Pc.looping s =
    if leb s.consume_i limit
    then some (record s { consume_pc = Pc.acquiring })
    else some (record s { consume_pc = Pc.finished })
consumer_step Pc.acquiring s =
    if ltb 0 s.sem_to_consume
    then some (record s { sem_to_consume = s.sem_to_consume - 1; consume_pc = Pc.updating })
    else none
consumer_step Pc.updating s =
    some (record s { shared_resource = dec32 s.shared_resource; consume_pc = Pc.releasing })
consumer_step Pc.releasing s = some (record s {
  sem_to_produce = s.sem_to_produce + 1;
  consume_pc = Pc.looping;
  consume_i = s.consume_i + 1;
})
consumer_step Pc.finished s = none

pub step : Thread → State → Option State
unfolding producer_step consumer_step
step producer s = producer_step s.produce_pc s
step consumer s = consumer_step s.consume_pc s
