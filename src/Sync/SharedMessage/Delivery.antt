-- ===== src/Sync/SharedMessage/Delivery.antt =====
-- Chapter 9/shared_mem_sp.cpp: the message arrives, and no thread sleeps for ever.
use c_programming_for_linux.Prelude.{
  ℕ, suc, ◌+◌, ◌*◌, ◌≤◌, ◌<◌, ◌≡◌, ◌≢◌, refl, ◌⊎◌, inl, inr, List, none, some, Bool, true, false,
  ◌||◌, ◌&&◌, if◌then◌else◌, arith, run, run_inv, run_completes,
}
use c_programming_for_linux.Sync.SharedMessage.{
  Thread, server, client, Granted, Pc, State, main_started, step,
}

-- Whether a thread holds the mutex.
abbrev pub owns : Pc → ℕ
owns Pc.locking = 0
owns Pc.asleep = 0
owns Pc.notifying = 0
owns Pc.printing = 0
owns Pc.finished = 0
owns _ = 1

abbrev held : Bool → ℕ
held true = 1
held false = 0

-- Whether the producer has set, and the consumer cleared, `work_done`; whether the consumer has seen
-- it set; whether the message is stored.
abbrev has_flagged : Pc → Bool
has_flagged Pc.unlocking = true
has_flagged Pc.notifying = true
has_flagged Pc.printing = true
has_flagged Pc.finished = true
has_flagged _ = false

abbrev has_stored : Pc → Bool
has_stored Pc.flagging = true
has_stored pc = has_flagged pc

abbrev has_seen : Pc → Bool
has_seen Pc.opening = true
has_seen Pc.sizing = true
has_seen Pc.mapping = true
has_seen Pc.flagging = true
has_seen pc = has_flagged pc

abbrev has_cleared : Pc → Bool
has_cleared Pc.unlocking = true
has_cleared Pc.printing = true
has_cleared Pc.finished = true
has_cleared _ = false

module _ (os : Granted) (message : ℕ) where
  -- All calls but `ftruncate`, whose result is not tested.
  abbrev pub all_calls_succeed : Bool
  all_calls_succeed = os.producer_opens && os.producer_maps && os.consumer_opens && os.consumer_maps

  record Inv (s : State) : Type 0 where
    owner : owns s.produce_pc + owns s.consume_pc ≡ held s.locked
    flag : s.work_done ≡ (if has_cleared s.consume_pc then false else has_flagged s.produce_pc)
    stored : has_stored s.produce_pc ≡ true → s.shared ≡ some message
    seen : has_seen s.consume_pc ≡ true → has_flagged s.produce_pc ≡ true
    awake : s.produce_pc ≢ Pc.asleep
    not_clearing : (s.consume_pc ≢ Pc.storing) × (s.consume_pc ≢ Pc.notifying)
    sleeping :
        s.consume_pc ≡ Pc.asleep → (s.produce_pc ≢ Pc.printing) × (s.produce_pc ≢ Pc.finished)
    got : s.consume_pc ≡ Pc.finished → s.received ≡ some message
    thrown : s.terminated ≡ true → all_calls_succeed ≡ false
    unsized : s.killed ≡ true → os.producer_sizes ≡ false

  producer-Inv : (s s' : State) → Inv s → step os message server s ≡ some s' → Inv s'
  unfolding step
  producer-Inv s s' v e = ground arith

  consumer-Inv : (s s' : State) → Inv s → step os message client s ≡ some s' → Inv s'
  unfolding step
  consumer-Inv s s' v e = ground arith

  step-Inv : (t : Thread) (s s' : State) → Inv s → step os message t s ≡ some s' → Inv s'
  step-Inv server s s' v e = producer-Inv s s' v e
  step-Inv client s s' v e = consumer-Inv s s' v e

  run-Inv : (ts : List Thread) → Inv (run (step os message) ts main_started)
  run-Inv ts = run_inv (step os message) Inv step-Inv ts main_started (record {
    owner = refl;
    flag = refl;
    stored = λ e. cc;
    seen = λ e. cc;
    awake = λ e. cc;
    not_clearing = (λ e. cc, λ e. cc);
    sleeping = λ e. cc;
    got = λ e. cc;
    thrown = λ e. cc;
    unsized = λ e. cc;
  })

  -- Under every schedule the two threads never hold the mutex together, and a consumer that has
  -- finished has read the producer's message.
  pub consumer_gets_message :
      (ts : List Thread)
      → let s = run (step os message) ts main_started in
        (owns s.produce_pc + owns s.consume_pc ≤ 1)
        × (s.consume_pc ≡ Pc.finished → s.received ≡ some message)
  consumer_gets_message ts = let v = run-Inv ts in (ground (arith, v.owner), v.got)

  abbrev pub ended : State → Bool
  ended s = s.terminated || s.killed || elim s.produce_pc [
    | Pc.finished ↦ elim s.consume_pc [ Pc.finished ↦ true | _ ↦ false ]
    | _ ↦ false
  ]

  abbrev left : Pc → ℕ
  left Pc.locking = 13
  left Pc.testing = 12
  left Pc.asleep = 11
  left Pc.opening = 8
  left Pc.sizing = 7
  left Pc.mapping = 6
  left Pc.storing = 5
  left Pc.flagging = 4
  left Pc.unlocking = 3
  left Pc.notifying = 2
  left Pc.printing = 1
  left Pc.finished = 0

  -- The producer's notification gives the consumer up to two turns more.
  abbrev producer_left : Pc → ℕ
  producer_left pc = 4 * left pc

  abbrev running : Bool → ℕ
  running true = 0
  running false = 1

  abbrev work_left : State → ℕ
  work_left s =
      running s.terminated + running s.killed + producer_left s.produce_pc + left s.consume_pc

  producer-lowers :
      (s s' : State) → Inv s → step os message server s ≡ some s' → work_left s' < work_left s
  unfolding step
  producer-lowers s s' v e = ground arith

  consumer-lowers :
      (s s' : State) → Inv s → step os message client s ≡ some s' → work_left s' < work_left s
  unfolding step
  consumer-lowers s s' v e = ground arith

  step-lowers-work_left :
      (t : Thread) (s s' : State)
      → Inv s
      → step os message t s ≡ some s'
      → work_left s' < work_left s
  step-lowers-work_left server s s' v e = producer-lowers s s' v e
  step-lowers-work_left client s s' v e = consumer-lowers s s' v e

  abbrev Ready : State → Pc → Type 0
  Ready s Pc.finished = ⊥
  Ready s Pc.asleep = ⊥
  Ready s Pc.locking = (s.locked ≡ false) × (s.terminated ≡ false) × (s.killed ≡ false)
  Ready s _ = (s.terminated ≡ false) × (s.killed ≡ false)

  some-Ready : (s : State) → Inv s → ended s ≡ false → Ready s s.produce_pc ⊎ Ready s s.consume_pc
  some-Ready s v e = ground arith

  Ready-moves :
      (s : State)
      → Inv s
      → (Ready s s.produce_pc → step os message server s ≢ none)
        × (Ready s s.consume_pc → step os message client s ≢ none)
  unfolding step
  Ready-moves s v = (λ r e. ground arith, λ r e. ground (arith, v.not_clearing.0, v.not_clearing.1))

  some_moves : (s : State) → Inv s → ended s ≡ false → (t : Thread) × (step os message t s ≢ none)
  some_moves s v e = elim (some-Ready s v e) [
    | inl r ↦ (server, (Ready-moves s v).0 r)
    | inr r ↦ (client, (Ready-moves s v).1 r)
  ]

  -- Under every schedule an exception ends the program only if a call of `shm_open` or `mmap` fails, and
  -- a signal only if the region stays too short; from every state that a schedule leads to, the program
  -- can be run to its end, where an exception or the signal has ended it or both threads have finished.
  pub delivery_never_stuck :
      (ts : List Thread)
      → let s = run (step os message) ts main_started in
        (s.terminated ≡ true → all_calls_succeed ≡ false)
        × (s.killed ≡ true → os.producer_sizes ≡ false)
        × ((us : List Thread) × (ended (run (step os message) us s) ≡ true))
  delivery_never_stuck ts =
      let s = run (step os message) ts main_started in
      let v = run-Inv ts in
      (
        v.thrown,
        v.unsized,
        run_completes (step os message) Inv ended work_left step-Inv step-lowers-work_left
            some_moves (suc (work_left s)) s (omega arith) v,
      )
