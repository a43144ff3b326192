-- ===== src/Sync/SharedMessage.antt =====
-- Chapter 9/shared_mem_sp.cpp: a producer that puts a message into shared memory and a consumer that
-- waits for it on a condition variable. What the system grants to each side is an argument. An
-- exception that leaves a thread's function ends the program, and so does the signal of an access to
-- a mapped region that is too short. Wake-ups without a notification are left out: the predicate would
-- be tested again.
pub mod Delivery
mod Examples
use c_programming_for_linux.Prelude.{ℕ, Bool, true, false, Option, none, some, if◌then◌else◌}

pub data Thread : Type 0 where
  server client : Thread

-- Which calls succeed. `producer_sizes` says whether the region has the size asked for after the
-- producer's `ftruncate`: if the call succeeds, or if it had that size before.
pub record Granted : Type 0 where
  pub producer_opens : Bool
  pub producer_sizes : Bool
  pub producer_maps : Bool
  pub consumer_opens : Bool
  pub consumer_maps : Bool

-- `sizing` is `ftruncate`; `testing` is the predicate of `wait`, under the mutex; `asleep` has released it.
pub data Pc : Type 0 where
  locking testing asleep opening sizing mapping storing flagging unlocking notifying : Pc
  printing finished : Pc

pub record State : Type 0 where
  pub locked : Bool
  pub work_done : Bool
  pub shared : Option ℕ
  pub produce_pc : Pc
  pub consume_pc : Pc
  pub received : Option ℕ
  pub terminated : Bool
  pub killed : Bool

abbrev pub main_started : State
main_started = record {
  locked = false;
  work_done = false;
  shared = none;
  produce_pc = Pc.locking;
  consume_pc = Pc.locking;
  received = none;
  terminated = false;
  killed = false;
}

-- `notify_one` lets a sleeper ask for the mutex again.
pub notify : Pc → Pc
notify Pc.asleep = Pc.locking
notify pc = pc

module _ (os : Granted) (message : ℕ) where
  -- `producer`: the placement `new` stores the pointer to the message.
  pub producer_step : Pc → State → Option State
  unfolding notify
  producer_step Pc.locking s =
      if s.locked then none else some (record s { locked = true; produce_pc = Pc.testing })
  producer_step Pc.testing s =
      if s.work_done
      then some (record s { locked = false; produce_pc = Pc.asleep })
      else some (record s { produce_pc = Pc.opening })
  producer_step Pc.asleep s = none
  producer_step Pc.opening s =
      if os.producer_opens
      then some (record s { produce_pc = Pc.sizing })
      else some (record s { terminated = true })
  producer_step Pc.sizing s = some (record s { produce_pc = Pc.mapping })
  producer_step Pc.mapping s =
      if os.producer_maps
      then some (record s { produce_pc = Pc.storing })
      else some (record s { terminated = true })
  producer_step Pc.storing s =
      if os.producer_sizes
      then some (record s { shared = some message; produce_pc = Pc.flagging })
      else some (record s { killed = true })
  producer_step Pc.flagging s = some (record s { work_done = true; produce_pc = Pc.unlocking })
  producer_step Pc.unlocking s = some (record s { locked = false; produce_pc = Pc.notifying })
  producer_step Pc.notifying s =
      some (record s { consume_pc = notify s.consume_pc; produce_pc = Pc.printing })
  producer_step Pc.printing s = some (record s { produce_pc = Pc.finished })
  producer_step Pc.finished s = none

  -- `consumer`: the mutex is released when the function returns, and `main` then reads the message. Its
  -- `ftruncate` changes nothing, since the region has the size already that the producer stored in.
  pub consumer_step : Pc → State → Option State
  consumer_step Pc.locking s =
      if s.locked then none else some (record s { locked = true; consume_pc = Pc.testing })
  consumer_step Pc.testing s =
      if s.work_done
      then some (record s { consume_pc = Pc.opening })
      else some (record s { locked = false; consume_pc = Pc.asleep })
  consumer_step Pc.asleep s = none
  consumer_step Pc.opening s =
      if os.consumer_opens
      then some (record s { consume_pc = Pc.sizing })
      else some (record s { terminated = true })
  consumer_step Pc.sizing s = some (record s { consume_pc = Pc.mapping })
  consumer_step Pc.mapping s =
      if os.consumer_maps
      then some (record s { consume_pc = Pc.flagging })
      else some (record s { terminated = true })
  consumer_step Pc.storing s = none
  consumer_step Pc.flagging s = some (record s { work_done = false; consume_pc = Pc.unlocking })
  consumer_step Pc.unlocking s = some (record s { locked = false; consume_pc = Pc.printing })
  consumer_step Pc.notifying s = none
  consumer_step Pc.printing s = some (record s { received = s.shared; consume_pc = Pc.finished })
  consumer_step Pc.finished s = none

  pub step : Thread → State → Option State
  unfolding producer_step consumer_step
  step server s =
      if s.terminated then none else if s.killed then none else producer_step s.produce_pc s
  step client s =
      if s.terminated then none else if s.killed then none else consumer_step s.consume_pc s
