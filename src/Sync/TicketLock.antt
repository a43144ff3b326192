-- ===== src/Sync/TicketLock.antt =====
-- Chapter 9/ticket_lock.cpp: a spin lock that serves tickets in order, and the producer and the
-- consumer that share a vector of strings under it. One step is one shared access.
pub mod Invariant
pub mod Safety
pub mod Refinement
mod Examples
use c_programming_for_linux.Prelude.{
  ℕ, ◌+◌, Bool, true, false, List, [], ◌∷◌, ◌++◌, Option, none, some, ltb, ◌==◌, if◌then◌else◌,
  inc64,
}

-- The strings that the producer writes.
pub data Item : Type 0 where
  test1 test2 : Item

-- Where a thread stands. `looping` is the test of its `for`; `spinning` the `while` of `lock`, with
-- the ticket drawn; `entered` its first access under the lock.
pub data ProducerPc : Type 0 where
  looping : ProducerPc
  spinning : (ticket : ℕ) → ProducerPc
  entered : ProducerPc
  half_written : ProducerPc
  printing : ProducerPc
  unlocking : ProducerPc
  finished : ProducerPc

pub data ConsumerPc : Type 0 where
  looping : ConsumerPc
  spinning : (ticket : ℕ) → ConsumerPc
  entered : ConsumerPc
  clearing : ConsumerPc
  unlocking : ConsumerPc
  checking : ConsumerPc
  finished : ConsumerPc

-- The two counters of the lock are `size_t`. `consumed` counts the lines "Consumed".
pub record State : Type 0 where
  pub serving : ℕ
  pub next : ℕ
  pub shared_res : List Item
  pub producer : ProducerPc
  pub producer_i : ℕ
  pub consumer : ConsumerPc
  pub consumer_i : ℕ
  pub consumed : ℕ

pub data Thread : Type 0 where
  produce consume : Thread

abbrev pub rounds : ℕ
rounds = 100

abbrev pub spinlock : State
spinlock = record {
  serving = 0;
  next = 0;
  shared_res = [];
  producer = ProducerPc.looping;
  producer_i = 0;
  consumer = ConsumerPc.looping;
  consumer_i = 0;
  consumed = 0;
}

-- The two halves of `lock`: `fetch_add` draws the ticket, and the loop ends once it is served.
pub fetch_ticket : State → State
fetch_ticket s = record s { next = inc64 s.next }

pub is_served : State → ℕ → Bool
is_served s ticket = s.serving == ticket

pub unlock : State → State
unlock s = record s { serving = inc64 s.serving }

pub emplace_back : Item → State → State
emplace_back x s = record s { shared_res = s.shared_res ++ x ∷ [] }

pub is_empty : List Item → Bool
is_empty [] = true
is_empty (x ∷ xs) = false

-- One turn of `producer`. A round of the spin loop that fails changes nothing, and counts as no move.
pub producer_step : ProducerPc → State → Option State
unfolding fetch_ticket is_served unlock emplace_back
producer_step ProducerPc.looping s =
    if ltb s.producer_i rounds
    then some (record (fetch_ticket s) { producer = ProducerPc.spinning s.next })
    else some (record s { producer = ProducerPc.finished })
producer_step (ProducerPc.spinning ticket) s =
    if is_served s ticket then some (record s { producer = ProducerPc.entered }) else none
producer_step ProducerPc.entered s =
    some (record (emplace_back test1 s) { producer = ProducerPc.half_written })
producer_step ProducerPc.half_written s =
    some (record (emplace_back test2 s) { producer = ProducerPc.printing })
producer_step ProducerPc.printing s = some (record s { producer = ProducerPc.unlocking })
producer_step ProducerPc.unlocking s =
    some (record (unlock s) { producer = ProducerPc.looping; producer_i = s.producer_i + 1 })
producer_step ProducerPc.finished s = none

-- One turn of `consumer`. The test for "Consumed" reads the vector after `unlock`.
pub consumer_step : ConsumerPc → State → Option State
unfolding fetch_ticket is_served unlock is_empty
consumer_step ConsumerPc.looping s =
    if ltb s.consumer_i rounds
    then some (record (fetch_ticket s) { consumer = ConsumerPc.spinning s.next })
    else some (record s { consumer = ConsumerPc.finished })
consumer_step (ConsumerPc.spinning ticket) s =
    if is_served s ticket then some (record s { consumer = ConsumerPc.entered }) else none
consumer_step ConsumerPc.entered s = some (record s { consumer = ConsumerPc.clearing })
consumer_step ConsumerPc.clearing s =
    some (record s { shared_res = []; consumer = ConsumerPc.unlocking })
consumer_step ConsumerPc.unlocking s = some (record (unlock s) { consumer = ConsumerPc.checking })
consumer_step ConsumerPc.checking s = some (record s {
  consumer = ConsumerPc.looping;
  consumer_i = s.consumer_i + 1;
  consumed = if is_empty s.shared_res then s.consumed + 1 else s.consumed;
})
consumer_step ConsumerPc.finished s = none

pub step : Thread → State → Option State
unfolding producer_step consumer_step
step produce s = producer_step s.producer s
step consume s = consumer_step s.consumer s
