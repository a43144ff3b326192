-- ===== src/Sync/BinarySemaphore/Handover.antt =====
-- Chapter 7/cpp_sem_example.cpp: the hand-over between the two loops, and how it ends.
use c_programming_for_linux.Prelude.{
  ℕ, suc, ◌+◌, ◌-◌, ◌*◌, ◌≤◌, ◌<◌, ◌≡◌, ◌≢◌, refl, ◌⊎◌, inl, inr, List, none, some, Bool, true,
  false, ◌==◌, arith, run, run_inv, run_completes,
}
use c_programming_for_linux.Sync.BinarySemaphore.{
  Thread, producer, consumer, Pc, State, limit, main_started, step,
}

-- Whether a thread is between `acquire` and `release`, has updated the counter, or has passed the
-- test of its loop.
abbrev pub holds : Pc → ℕ
holds Pc.updating = 1
holds Pc.releasing = 1
holds _ = 0

abbrev pub updated : Pc → ℕ
updated Pc.releasing = 1
updated _ = 0

abbrev pub InLoop : ℕ → ℕ → Pc → Type 0
InLoop i n Pc.looping = i ≤ n
InLoop i n Pc.finished = i ≡ n
InLoop i n _ = i < n

-- One token goes round: in a semaphore or in a thread's hands.
pub record Inv (s : State) : Type 0 where
  pub one_token : s.sem_to_produce + s.sem_to_consume + holds s.produce_pc + holds s.consume_pc ≡ 1
  pub turns : s.consume_i + holds s.consume_pc + s.sem_to_consume ≡ s.produce_i
  pub counted :
      s.shared_resource + s.consume_i + updated s.consume_pc ≡ s.produce_i + updated s.produce_pc
  pub produce_in : InLoop s.produce_i limit s.produce_pc
  pub consume_in : InLoop s.consume_i (limit + 1) s.consume_pc

pub step-Inv : (t : Thread) (s s' : State) → Inv s → step t s ≡ some s' → Inv s'
unfolding step
step-Inv producer s s' v e = ground arith
step-Inv consumer s s' v e = ground arith

run-Inv : (ts : List Thread) → Inv (run step ts main_started)
run-Inv ts = run_inv step Inv step-Inv ts main_started (record {
  one_token = refl;
  turns = refl;
  counted = refl;
  produce_in = omega arith;
  consume_in = omega arith;
})

-- Under every schedule neither semaphore is released above 1, the maximum of a binary semaphore;
-- the producer and the consumer are never both between `acquire` and `release`; and the counter is
-- 0 or 1, so that `--shared_resource` never wraps.
pub exclusive_handover :
    (ts : List Thread)
    → let s = run step ts main_started in
      (s.sem_to_produce ≤ 1)
      × (s.sem_to_consume ≤ 1)
      × (holds s.produce_pc + holds s.consume_pc ≤ 1)
      × (s.shared_resource ≤ 1)
      × (s.consume_pc ≡ Pc.updating → s.shared_resource ≡ 1)
exclusive_handover ts = ground (arith, run-Inv ts)

-- The producer is done and the consumer waits for a value that will not come.
abbrev pub Hangs : State → Type 0
Hangs s =
    (s.produce_pc ≡ Pc.finished) × (s.consume_pc ≡ Pc.acquiring) × ((t : Thread) → step t s ≡ none)

abbrev both_stopped : State → Bool
both_stopped s = elim s.produce_pc [
  | Pc.finished ↦ elim s.consume_pc [ Pc.acquiring ↦ s.sem_to_consume == 0 | _ ↦ false ]
  | _ ↦ false
]

both_stopped-Hangs : (s : State) → both_stopped s ≡ true → Hangs s
unfolding step
both_stopped-Hangs s e = (ground arith, ground arith, stuck)
  where
    stuck : (t : Thread) → step t s ≡ none
    stuck producer = ground arith
    stuck consumer = ground arith

abbrev left : Pc → ℕ
left Pc.looping = 4
left Pc.acquiring = 3
left Pc.updating = 2
left Pc.releasing = 1
left Pc.finished = 0

abbrev work_left : State → ℕ
work_left s =
    5 * (limit - s.produce_i)
    + left s.produce_pc
    + (5 * (limit + 1 - s.consume_i) + left s.consume_pc)

step-lowers-work_left :
    (t : Thread) (s s' : State) → Inv s → step t s ≡ some s' → work_left s' < work_left s
unfolding step
step-lowers-work_left producer s s' v e = ground arith
step-lowers-work_left consumer s s' v e = ground arith

abbrev Ready : ℕ → Pc → Type 0
Ready sem Pc.finished = ⊥
Ready sem Pc.acquiring = 0 < sem
Ready sem _ = Unit {0}

some-Ready :
    (s : State)
    → Inv s
    → both_stopped s ≡ false
    → Ready s.sem_to_produce s.produce_pc ⊎ Ready s.sem_to_consume s.consume_pc
some-Ready s v e = ground arith

Ready-moves :
    (s : State)
    → (Ready s.sem_to_produce s.produce_pc → step producer s ≢ none)
      × (Ready s.sem_to_consume s.consume_pc → step consumer s ≢ none)
unfolding step
Ready-moves s = (λ r e. ground arith, λ r e. ground arith)

some_moves : (s : State) → Inv s → both_stopped s ≡ false → (t : Thread) × (step t s ≢ none)
some_moves s v e = elim (some-Ready s v e) [
  | inl r ↦ (producer, (Ready-moves s).0 r)
  | inr r ↦ (consumer, (Ready-moves s).1 r)
]

-- From whatever state a schedule leads to, the threads can be run into the state where the producer
-- has finished, the consumer waits in `acquire`, and no thread can move.
pub always-Hangs :
    (ts : List Thread) → (us : List Thread) × Hangs (run step us (run step ts main_started))
always-Hangs ts =
    let (us, e) =
      run_completes step Inv both_stopped work_left step-Inv step-lowers-work_left some_moves
        (suc (work_left (run step ts main_started))) (run step ts main_started) (omega arith)
        (run-Inv ts) in
    (us, both_stopped-Hangs _ e)
