-- ===== src/Sync/TicketLock/Refinement.antt =====
-- Chapter 9/ticket_lock.cpp: the critical sections behave like single steps.
use c_programming_for_linux.Prelude.{
  ℕ, ◌+◌, ◌≡◌, refl, ◌⊎◌, inl, inr, true, false, List, [], ◌∷◌, ◌++◌, Option, none, some, ltb,
  if◌then◌else◌, arith, run, run_refines,
}
use c_programming_for_linux.Sync.TicketLock.{
  Item, test1, test2, ProducerPc, ConsumerPc, State, Thread, produce, consume, rounds, spinlock,
  is_empty, step, producer_step, consumer_step,
}
use c_programming_for_linux.Sync.TicketLock.Invariant.{
  Inv, is_half, is_half-nil, Whole, step-Whole, run-Whole, exclusive,
}

-- A program without a lock: a round of the producer and a clearing of the consumer are one step each.
pub data Move : Type 0 where
  produce_round clear check : Move

pub record Rounds : Type 0 where
  pub items : List Item
  pub produced : ℕ
  pub cleared : ℕ
  pub checked : ℕ
  pub consumed : ℕ

abbrev pub start : Rounds
start = record { items = []; produced = 0; cleared = 0; checked = 0; consumed = 0 }

abbrev pub round_step : Move → Rounds → Option Rounds
round_step produce_round r =
    if ltb r.produced rounds
    then some
        (record r { items = (r.items ++ test1 ∷ []) ++ test2 ∷ []; produced = r.produced + 1 })
    else none
round_step clear r =
    if ltb r.cleared rounds then some (record r { items = []; cleared = r.cleared + 1 }) else none
round_step check r =
    if ltb r.checked r.cleared
    then some (record r {
      checked = r.checked + 1;
      consumed = if is_empty r.items then r.consumed + 1 else r.consumed;
    })
    else none

-- A round counts as produced from its first string on, and as cleared from the clearing on.
abbrev pub items_of : ProducerPc → List Item → List Item
items_of ProducerPc.half_written xs = xs ++ test2 ∷ []
items_of pc xs = xs

abbrev pub has_produced : ProducerPc → ℕ
has_produced ProducerPc.half_written = 1
has_produced ProducerPc.printing = 1
has_produced ProducerPc.unlocking = 1
has_produced pc = 0

abbrev pub has_cleared : ConsumerPc → ℕ
has_cleared ConsumerPc.unlocking = 1
has_cleared ConsumerPc.checking = 1
has_cleared pc = 0

abbrev pub abstraction : State → Rounds
abstraction s = record {
  items = items_of s.producer s.shared_res;
  produced = s.producer_i + has_produced s.producer;
  cleared = s.consumer_i + has_cleared s.consumer;
  checked = s.consumer_i;
  consumed = s.consumed;
}

half-is_empty :
    (xs : List Item)
    → is_half xs ≡ true
    → (is_empty xs ≡ false) × (is_empty (xs ++ test2 ∷ []) ≡ false)
unfolding is_empty
half-is_empty [] h = ground (arith, h, is_half-nil)
half-is_empty (x ∷ xs) h = (refl, refl)

simulate_produce :
    (pc : ProducerPc) (s s' : State)
    → s.producer ≡ pc
    → Inv s
    → producer_step pc s ≡ some s'
    → (abstraction s' ≡ abstraction s)
      ⊎ (round_step produce_round (abstraction s) ≡ some (abstraction s'))
unfolding producer_step
simulate_produce ProducerPc.looping s s' at v e = inl (ground (arith, at, e))
simulate_produce (ProducerPc.spinning t) s s' at v e = inl (ground (arith, at, e))
simulate_produce ProducerPc.entered s s' at v e = inr (ground (arith, at, e, v.producing))
simulate_produce ProducerPc.half_written s s' at v e = inl (ground (arith, at, e))
simulate_produce ProducerPc.printing s s' at v e = inl (ground (arith, at, e))
simulate_produce ProducerPc.unlocking s s' at v e = inl (ground (arith, at, e))
simulate_produce ProducerPc.finished s s' at v e = inl (ground (arith, at, e))

abbrev Simulates : State → State → Type 0
Simulates s s' =
    (abstraction s' ≡ abstraction s)
    ⊎ ((u : Move) × (round_step u (abstraction s) ≡ some (abstraction s')))

simulate_consume :
    (pc : ConsumerPc) (s s' : State)
    → s.consumer ≡ pc
    → Whole s
    → consumer_step pc s ≡ some s'
    → Simulates s s'
unfolding consumer_step
simulate_consume ConsumerPc.looping s s' at v e = inl (ground (arith, at, e))
simulate_consume (ConsumerPc.spinning t) s s' at v e = inl (ground (arith, at, e))
simulate_consume ConsumerPc.entered s s' at v e = inl (ground (arith, at, e))
simulate_consume ConsumerPc.clearing s s' at v e =
    inr (clear, ground (arith, at, e, v.0.consuming, exclusive s v.0))
simulate_consume ConsumerPc.unlocking s s' at v e = inl (ground (arith, at, e))
simulate_consume ConsumerPc.checking s s' at v e =
    inr (check, ground (arith, at, e, v.1, half-is_empty s.shared_res))
simulate_consume ConsumerPc.finished s s' at v e = inl (ground (arith, at, e))

simulate : (t : Thread) (s s' : State) → Whole s → step t s ≡ some s' → Simulates s s'
unfolding step
simulate produce s s' v e = elim (simulate_produce s.producer s s' refl v.0 e) [
  | inl same ↦ inl same
  | inr moved ↦ inr (produce_round, moved)
]
simulate consume s s' v e = simulate_consume s.consumer s s' refl v e

-- Whatever a schedule of the two threads leads to is, with a round taken as produced from its first
-- string on and as cleared from the clearing on, what some sequence of whole rounds, clearings and
-- checks leads to, each one step.
pub ticket_lock_refines_rounds :
    (ts : List Thread)
    → (us : List Move) × (run round_step us start ≡ abstraction (run step ts spinlock))
unfolding run
ticket_lock_refines_rounds ts =
    run_refines step round_step Whole abstraction step-Whole simulate ts spinlock (run-Whole [])
