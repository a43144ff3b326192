-- ===== src/Sync/TicketLock/Safety.antt =====
-- Chapter 9/ticket_lock.cpp: what holds in every reachable state of the two threads.
use c_programming_for_linux.Prelude.{
  ℕ, suc, ◌+◌, ◌-◌, ◌*◌, ◌<◌, ◌≡◌, ◌≢◌, ◌⊎◌, inl, inr, List, none, some, Bool, true, false, arith,
  run, run_completes,
}
use c_programming_for_linux.Sync.TicketLock.{
  ProducerPc, ConsumerPc, State, Thread, produce, consume, rounds, spinlock, step, producer_step,
  consumer_step,
}
use c_programming_for_linux.Sync.TicketLock.Invariant.{
  Inv, step-Inv, run-Inv, producer_critical, consumer_critical, is_whole, run-Whole, exclusive,
}

-- Under every schedule the producer and the consumer are never both between the return of `lock`
-- and the release in `unlock`.
pub mutual_exclusion :
    (ts : List Thread)
    → producer_critical (run step ts spinlock).producer ≡ true
    → consumer_critical (run step ts spinlock).consumer ≡ false
mutual_exclusion ts p = ground (arith, run-Inv ts)

-- What the consumer reads and clears under the lock is a number of whole rounds of the producer,
-- "test1" followed by "test2" each time, under every schedule.
pub consumer_sees_whole_rounds :
    (ts : List Thread)
    → consumer_critical (run step ts spinlock).consumer ≡ true
    → is_whole (run step ts spinlock).shared_res ≡ true
consumer_sees_whole_rounds ts c =
    let (v, contents) = run-Whole ts in ground (arith, exclusive (run step ts spinlock) v)

abbrev pub all_finished : State → Bool
all_finished s = elim s.producer [
  | ProducerPc.finished ↦ elim s.consumer [ ConsumerPc.finished ↦ true | _ ↦ false ]
  | _ ↦ false
]

abbrev producer_left : ProducerPc → ℕ
producer_left ProducerPc.looping = 6
producer_left (ProducerPc.spinning t) = 5
producer_left ProducerPc.entered = 4
producer_left ProducerPc.half_written = 3
producer_left ProducerPc.printing = 2
producer_left ProducerPc.unlocking = 1
producer_left ProducerPc.finished = 0

abbrev consumer_left : ConsumerPc → ℕ
consumer_left ConsumerPc.looping = 6
consumer_left (ConsumerPc.spinning t) = 5
consumer_left ConsumerPc.entered = 4
consumer_left ConsumerPc.clearing = 3
consumer_left ConsumerPc.unlocking = 2
consumer_left ConsumerPc.checking = 1
consumer_left ConsumerPc.finished = 0

abbrev work_left : State → ℕ
work_left s =
    7 * (rounds - s.producer_i)
    + producer_left s.producer
    + (7 * (rounds - s.consumer_i) + consumer_left s.consumer)

abbrev ProducerReady : ℕ → ProducerPc → Type 0
ProducerReady serving ProducerPc.finished = ⊥
ProducerReady serving (ProducerPc.spinning t) = serving ≡ t
ProducerReady serving _ = Unit {0}

abbrev ConsumerReady : ℕ → ConsumerPc → Type 0
ConsumerReady serving ConsumerPc.finished = ⊥
ConsumerReady serving (ConsumerPc.spinning t) = serving ≡ t
ConsumerReady serving _ = Unit {0}

some_ready :
    (s : State)
    → Inv s
    → all_finished s ≡ false
    → ProducerReady s.serving s.producer ⊎ ConsumerReady s.serving s.consumer
some_ready s v e = ground arith

producer_moves : (s : State) → Inv s → ProducerReady s.serving s.producer → step produce s ≢ none
unfolding step producer_step
producer_moves s v r e = ground arith

consumer_moves : (s : State) → Inv s → ConsumerReady s.serving s.consumer → step consume s ≢ none
unfolding step consumer_step
consumer_moves s v r e = ground arith

step-lowers-work_left :
    (t : Thread) (s s' : State) → Inv s → step t s ≡ some s' → work_left s' < work_left s
unfolding step producer_step consumer_step
step-lowers-work_left produce s s' v e = ground arith
step-lowers-work_left consume s s' v e = ground arith

some_moves : (s : State) → Inv s → all_finished s ≡ false → (t : Thread) × (step t s ≢ none)
some_moves s v e = elim (some_ready s v e) [
  | inl r ↦ (produce, producer_moves s v r)
  | inr r ↦ (consume, consumer_moves s v r)
]

-- No schedule leads into a deadlock: whatever the threads did so far, both can be run to the end of
-- their rounds.
pub ticket_lock_never_stuck :
    (ts : List Thread)
    → (us : List Thread) × (all_finished (run step us (run step ts spinlock)) ≡ true)
ticket_lock_never_stuck ts =
    run_completes step Inv all_finished work_left step-Inv step-lowers-work_left some_moves
      (suc (work_left (run step ts spinlock))) (run step ts spinlock) (omega arith) (run-Inv ts)
