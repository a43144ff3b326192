-- ===== src/Sync/AtomicFlag/Alternation.antt =====
-- Chapter 7/cpp_atomic_flags.cpp: the two loops take turns, none sleeps for ever, and they cancel out.
use c_programming_for_linux.Prelude.{
  ℕ, suc, ◌+◌, ◌-◌, ◌*◌, ◌≤◌, ◌<◌, ◌≡◌, ◌≢◌, refl, ◌⊎◌, inl, inr, List, none, some, Bool, true,
  false, not, ◌%◌, ◌^◌, arith, run, run_inv, run_completes,
}
use c_programming_for_linux.Sync.AtomicFlag.{
  Thread, increment, decrement, Pc, State, limit, main_started, step, increment_step,
  decrement_step,
}

-- Whether the round's switch of the flag, and its update of the counter, are done.
abbrev pub switched : Pc → ℕ
switched Pc.updating = 1
switched Pc.notifying = 1
switched _ = 0

abbrev pub updated : Pc → ℕ
updated Pc.notifying = 1
updated _ = 0

abbrev pub InLoop : ℕ → Pc → Type 0
InLoop i Pc.looping = i ≤ limit
InLoop i Pc.finished = i ≡ limit
InLoop i _ = i < limit

-- One clear is ahead of the sets exactly while the flag is down.
abbrev lead : Bool → ℕ
lead true = 0
lead false = 1

-- A thread that sleeps waits for a switch to come, or for the notification that follows it.
abbrev Asleep : Pc → Bool → Pc → Type 0
Asleep Pc.asleep blocked other = (blocked ≡ true) ⊎ (switched other ≡ 1)
Asleep _ blocked other = Unit {0}

abbrev Passed : Pc → Bool → Type 0
Passed Pc.switching blocked = blocked ≡ false
Passed _ blocked = Unit {0}

pub record Inv (s : State) : Type 0 where
  pub turns : s.dec_i + switched s.dec_pc ≡ s.inc_i + switched s.inc_pc + lead s.cond_flag
  pub counted :
      (s.shared_resource + s.dec_i + updated s.dec_pc) % 2 ^ 16 ≡ s.inc_i + updated s.inc_pc
  pub word : s.shared_resource < 2 ^ 16
  pub inc_in : InLoop s.inc_i s.inc_pc
  pub dec_in : InLoop s.dec_i s.dec_pc
  pub inc_passed : Passed s.inc_pc s.cond_flag
  pub dec_passed : Passed s.dec_pc (not s.cond_flag)
  pub inc_sleep : Asleep s.inc_pc s.cond_flag s.dec_pc
  pub dec_sleep : Asleep s.dec_pc (not s.cond_flag) s.inc_pc

increment-Inv : (s s' : State) → Inv s → increment_step s.inc_pc s ≡ some s' → Inv s'
unfolding increment_step
increment-Inv s s' v e = ground arith

decrement-Inv : (s s' : State) → Inv s → decrement_step s.dec_pc s ≡ some s' → Inv s'
unfolding decrement_step
decrement-Inv s s' v e = ground arith

pub step-Inv : (t : Thread) (s s' : State) → Inv s → step t s ≡ some s' → Inv s'
unfolding step
step-Inv increment s s' v e = increment-Inv s s' v e
step-Inv decrement s s' v e = decrement-Inv s s' v e

run-Inv : (ts : List Thread) → Inv (run step ts main_started)
run-Inv ts = run_inv step Inv step-Inv ts main_started (record {
  turns = refl;
  counted = refl;
  word = omega arith;
  inc_in = omega arith;
  dec_in = omega arith;
  inc_passed = tt;
  dec_passed = tt;
  inc_sleep = tt;
  dec_sleep = tt;
})

-- When both loops have ended, under whatever schedule, each has made `limit` rounds and the counter
-- is back at 0.
pub finished_at_zero :
    (ts : List Thread)
    → let s = run step ts main_started in
      s.inc_pc ≡ Pc.finished
      → s.dec_pc ≡ Pc.finished
      → (s.shared_resource ≡ 0) × (s.inc_i ≡ limit) × (s.dec_i ≡ limit)
finished_at_zero ts p q = ground (arith, run-Inv ts)

abbrev pub both_finished : State → Bool
both_finished s = elim s.inc_pc [
  | Pc.finished ↦ elim s.dec_pc [ Pc.finished ↦ true | _ ↦ false ]
  | _ ↦ false
]

abbrev left : Pc → ℕ
left Pc.looping = 7
left Pc.waiting = 5
left Pc.asleep = 4
left Pc.switching = 3
left Pc.updating = 2
left Pc.notifying = 1
left Pc.finished = 0

abbrev work_left : State → ℕ
work_left s = 10 * (limit - s.inc_i) + left s.inc_pc + (10 * (limit - s.dec_i) + left s.dec_pc)

step-lowers-work_left :
    (t : Thread) (s s' : State) → Inv s → step t s ≡ some s' → work_left s' < work_left s
unfolding step
step-lowers-work_left increment s s' v e = ground arith
step-lowers-work_left decrement s s' v e = ground arith

abbrev Ready : Pc → Type 0
Ready Pc.finished = ⊥
Ready Pc.asleep = ⊥
Ready _ = Unit {0}

some-Ready : (s : State) → Inv s → both_finished s ≡ false → Ready s.inc_pc ⊎ Ready s.dec_pc
some-Ready s v e = ground arith

Ready-moves :
    (s : State)
    → (Ready s.inc_pc → step increment s ≢ none) × (Ready s.dec_pc → step decrement s ≢ none)
unfolding step
Ready-moves s = (λ r e. ground arith, λ r e. ground arith)

some_moves : (s : State) → Inv s → both_finished s ≡ false → (t : Thread) × (step t s ≢ none)
some_moves s v e = elim (some-Ready s v e) [
  | inl r ↦ (increment, (Ready-moves s).0 r)
  | inr r ↦ (decrement, (Ready-moves s).1 r)
]

-- No wake-up is lost: from whatever state a schedule leads to, both loops can be run to their ends.
pub flag_loops_never_stuck :
    (ts : List Thread)
    → (us : List Thread) × (both_finished (run step us (run step ts main_started)) ≡ true)
flag_loops_never_stuck ts =
    run_completes step Inv both_finished work_left step-Inv step-lowers-work_left some_moves
      (suc (work_left (run step ts main_started))) (run step ts main_started) (omega arith)
      (run-Inv ts)
