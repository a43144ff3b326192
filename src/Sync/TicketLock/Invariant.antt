-- ===== src/Sync/TicketLock/Invariant.antt =====
-- Chapter 9/ticket_lock.cpp: who holds which ticket, and what the vector holds meanwhile.
use c_programming_for_linux.Prelude.{
  ℕ, ◌+◌, ◌≤◌, ◌<◌, ◌≡◌, refl, ◌⊎◌, List, [], ◌∷◌, ◌++◌, Option, none, some, Bool, true, false,
  arith, run, run_inv,
}
use c_programming_for_linux.Sync.TicketLock.{
  Item, test1, test2, ProducerPc, ConsumerPc, State, Thread, produce, consume, rounds, spinlock,
  step, producer_step, consumer_step,
}

-- The ticket that a thread holds between `fetch_add` in `lock` and the one in `unlock`.
abbrev pub producer_ticket : ℕ → ProducerPc → Option ℕ
producer_ticket serving ProducerPc.looping = none
producer_ticket serving ProducerPc.finished = none
producer_ticket serving (ProducerPc.spinning t) = some t
producer_ticket serving _ = some serving

abbrev pub consumer_ticket : ℕ → ConsumerPc → Option ℕ
consumer_ticket serving ConsumerPc.looping = none
consumer_ticket serving ConsumerPc.finished = none
consumer_ticket serving ConsumerPc.checking = none
consumer_ticket serving (ConsumerPc.spinning t) = some t
consumer_ticket serving _ = some serving

-- Between the return of `lock` and the `fetch_add` of `unlock`.
abbrev pub producer_critical : ProducerPc → Bool
producer_critical ProducerPc.looping = false
producer_critical ProducerPc.finished = false
producer_critical (ProducerPc.spinning t) = false
producer_critical _ = true

abbrev pub consumer_critical : ConsumerPc → Bool
consumer_critical ConsumerPc.looping = false
consumer_critical ConsumerPc.finished = false
consumer_critical ConsumerPc.checking = false
consumer_critical (ConsumerPc.spinning t) = false
consumer_critical _ = true

-- The outstanding tickets are the next to be served, and no ticket is out twice.
abbrev pub Tickets : State → Option ℕ → Option ℕ → Type 0
Tickets s none none = s.next ≡ s.serving
Tickets s (some p) none = (p ≡ s.serving) × (s.next ≡ s.serving + 1)
Tickets s none (some c) = (c ≡ s.serving) × (s.next ≡ s.serving + 1)
Tickets s (some p) (some c) =
    (s.next ≡ s.serving + 2)
    × (((p ≡ s.serving) × (c ≡ s.serving + 1)) ⊎ ((p ≡ s.serving + 1) × (c ≡ s.serving)))

-- Releases so far: one for each round done, and one more while the consumer checks.
abbrev pub released : State → ℕ
released s = s.producer_i + s.consumer_i + elim s.consumer [ ConsumerPc.checking ↦ 1 | _ ↦ 0 ]

abbrev pub Ongoing : ℕ → Bool → Type 0
Ongoing i true = i < rounds
Ongoing i false = i ≤ rounds

abbrev pub producer_ongoing : ProducerPc → Bool
producer_ongoing ProducerPc.looping = false
producer_ongoing ProducerPc.finished = false
producer_ongoing _ = true

abbrev pub consumer_ongoing : ConsumerPc → Bool
consumer_ongoing ConsumerPc.looping = false
consumer_ongoing ConsumerPc.finished = false
consumer_ongoing _ = true

-- Whole rounds of the producer, and whole rounds followed by half of one.
pub is_whole : List Item → Bool
is_whole [] = true
is_whole (test1 ∷ test2 ∷ xs) = is_whole xs
is_whole xs = false

pub is_half : List Item → Bool
is_half (test1 ∷ []) = true
is_half (test1 ∷ test2 ∷ xs) = is_half xs
is_half xs = false

abbrev pub Contents : ProducerPc → List Item → Type 0
Contents ProducerPc.half_written xs = is_half xs ≡ true
Contents _ xs = is_whole xs ≡ true

pub record Inv (s : State) : Type 0 where
  pub tickets :
      Tickets s (producer_ticket s.serving s.producer) (consumer_ticket s.serving s.consumer)
  pub releases : s.serving ≡ released s
  pub producing : Ongoing s.producer_i (producer_ongoing s.producer)
  pub consuming : Ongoing s.consumer_i (consumer_ongoing s.consumer)

producer-Inv : (s s' : State) → Inv s → producer_step s.producer s ≡ some s' → Inv s'
unfolding producer_step
producer-Inv s s' v e = ground arith

consumer-Inv : (s s' : State) → Inv s → consumer_step s.consumer s ≡ some s' → Inv s'
unfolding consumer_step
consumer-Inv s s' v e = ground arith

pub step-Inv : (t : Thread) (s s' : State) → Inv s → step t s ≡ some s' → Inv s'
unfolding step
step-Inv produce s s' v e = producer-Inv s s' v e
step-Inv consume s s' v e = consumer-Inv s s' v e

pub spinlock-Inv : Inv spinlock
spinlock-Inv = record {
  tickets = refl;
  releases = refl;
  producing = omega arith;
  consuming = omega arith;
}

-- The invariant holds after every schedule.
pub run-Inv : (ts : List Thread) → Inv (run step ts spinlock)
run-Inv ts = run_inv step Inv step-Inv ts spinlock spinlock-Inv

is_whole-append : (xs : List Item) → is_whole xs ≡ true → is_half (xs ++ test1 ∷ []) ≡ true
unfolding is_whole is_half
is_whole-append [] h = refl
is_whole-append (test1 ∷ []) h = cc
is_whole-append (test1 ∷ test1 ∷ xs) h = cc
is_whole-append (test1 ∷ test2 ∷ xs) h = is_whole-append xs h
is_whole-append (test2 ∷ xs) h = cc

is_half-append : (xs : List Item) → is_half xs ≡ true → is_whole (xs ++ test2 ∷ []) ≡ true
unfolding is_whole is_half
is_half-append [] h = cc
is_half-append (test1 ∷ []) h = refl
is_half-append (test1 ∷ test1 ∷ xs) h = cc
is_half-append (test1 ∷ test2 ∷ xs) h = is_half-append xs h
is_half-append (test2 ∷ xs) h = cc

is_whole-nil : is_whole [] ≡ true
unfolding is_whole
is_whole-nil = refl

pub is_half-nil : is_half [] ≡ false
unfolding is_half
is_half-nil = refl

pub exclusive :
    (s : State) → Inv s → consumer_critical s.consumer ≡ true → producer_critical s.producer ≡ false
exclusive s v h = ground arith

producer-Contents :
    (s s' : State)
    → Contents s.producer s.shared_res
    → producer_step s.producer s ≡ some s'
    → Contents s'.producer s'.shared_res
unfolding producer_step
producer-Contents s s' c e =
    ground (arith, is_whole-append s.shared_res, is_half-append s.shared_res)

consumer-Contents :
    (s s' : State)
    → (consumer_critical s.consumer ≡ true → producer_critical s.producer ≡ false)
    → Contents s.producer s.shared_res
    → consumer_step s.consumer s ≡ some s'
    → Contents s'.producer s'.shared_res
unfolding consumer_step
consumer-Contents s s' v c e = ground (arith, v, is_whole-nil)

abbrev pub Whole : State → Type 0
Whole s = Inv s × Contents s.producer s.shared_res

pub step-Whole : (t : Thread) (s s' : State) → Whole s → step t s ≡ some s' → Whole s'
unfolding step
step-Whole produce s s' v e = (producer-Inv s s' v.0 e, producer-Contents s s' v.1 e)
step-Whole consume s s' v e =
    (consumer-Inv s s' v.0 e, consumer-Contents s s' (exclusive s v.0) v.1 e)

pub run-Whole : (ts : List Thread) → Whole (run step ts spinlock)
unfolding is_whole
run-Whole ts = run_inv step Whole step-Whole ts spinlock (spinlock-Inv, refl)
