-- ===== src/Sync/Alarm/Stopping.antt =====
-- Chapter 8/posix-alarm.cpp: what stops the loop.
use c_programming_for_linux.Prelude.{
  ◌≤◌, ◌≡◌, ◌≢◌, refl, Bool, true, false, List, [], ◌∷◌, some, arith, run, run_inv,
}
use c_programming_for_linux.Sync.Alarm.{
  Turn, main_turn, expiry, MainPc, State, main_started, main_step, handle, expire, step,
}

abbrev pub before_arming : MainPc → Bool
before_arming MainPc.installing = true
before_arming MainPc.arming = true
before_arming pc = false

record Inv (s : State) : Type 0 where
  stopped : s.continue_execution ≡ false → (1 ≤ s.handled) × (s.is_armed ≡ true)
  ended : s.main_pc ≡ MainPc.finished → s.continue_execution ≡ false
  unarmed : before_arming s.main_pc ≡ true → s.is_armed ≡ false
  died : s.main_pc ≡ MainPc.killed → s.has_handler ≡ false

step-Inv : (t : Turn) (s s' : State) → Inv s → step t s ≡ some s' → Inv s'
unfolding step main_step expire handle
step-Inv (main_turn fails) s s' v e = ground arith
step-Inv expiry s s' v e = ground arith

-- A timer that could not be set stays so.
abbrev Unarmed : State → Type 0
Unarmed s =
    (s.is_armed ≡ false)
    × (before_arming s.main_pc ≡ false)
    × (s.continue_execution ≡ true)
    × (s.main_pc ≢ MainPc.finished)

step-Unarmed : (t : Turn) (s s' : State) → Unarmed s → step t s ≡ some s' → Unarmed s'
unfolding step main_step expire
step-Unarmed (main_turn fails) s s' v e = ground arith
step-Unarmed expiry s s' v e = ground arith

-- One expiry and two turns of main.
stops_after_expiry :
    (s : State)
    → Inv s
    → s.is_armed ≡ true
    → s.has_handler ≡ true
    → (run step (expiry ∷ main_turn false ∷ main_turn false ∷ []) s).main_pc ≡ MainPc.finished
unfolding run step main_step expire handle
stops_after_expiry s v armed handler = ground arith

-- Under every schedule, whichever calls fail: main has ended its loop only after the handler has run;
-- once the timer is set and the handler installed, one expiry and two turns of main end the program;
-- and if the timer could not be set, no further schedule ends the loop.
pub alarm_stops :
    (ts : List Turn)
    → let s = run step ts main_started in
      (s.main_pc ≡ MainPc.finished → 1 ≤ s.handled)
      × (s.is_armed ≡ true
          → s.has_handler ≡ true
          → (run step (expiry ∷ main_turn false ∷ main_turn false ∷ []) s).main_pc
            ≡ MainPc.finished)
      × (s.is_armed ≡ false
          → before_arming s.main_pc ≡ false
          → (us : List Turn) → (run step us s).main_pc ≢ MainPc.finished)
alarm_stops ts =
    let s = run step ts main_started in
    let v : Inv s = run_inv step Inv step-Inv ts main_started (record {
      stopped = λ e. absurd (ground (arith, e));
      ended = λ e. absurd (ground (arith, e));
      unarmed = λ e. refl;
      died = λ e. absurd (ground (arith, e));
    }) in
    (
      λ e. ground (arith, e, v.ended, v.stopped),
      stops_after_expiry s v,
      λ off late us.
          let idle : Unarmed s = (
            off,
            late,
            ground (arith, off, v.stopped),
            λ e. ground (arith, e, off, v.ended, v.stopped),
          ) in
          (run_inv step Unarmed step-Unarmed us s idle).3,
    )
