-- ===== src/Sync/Alarm/Examples.antt =====
-- Chapter 8/posix-alarm.cpp: the timer expires while main sleeps.
use c_programming_for_linux.Prelude.{◌≡◌, ◌≢◌, ◌≤◌, refl, true, false, List, [], ◌∷◌, run}
use c_programming_for_linux.Sync.Alarm.{
  Turn, main_turn, expiry, MainPc, main_started, main_step, step,
}
use c_programming_for_linux.Sync.Alarm.Stopping.{before_arming, alarm_stops}

abbrev asleep : List Turn
asleep = main_turn false ∷ main_turn false ∷ main_turn false ∷ main_turn false ∷ []

slept : (run step asleep main_started).main_pc ≡ MainPc.sleeping
unfolding run step main_step
slept = refl

alarm_stops_example :
    let s = run step asleep main_started in
    (s.main_pc ≡ MainPc.finished → 1 ≤ s.handled)
    × (s.is_armed ≡ true
        → s.has_handler ≡ true
        → (run step (expiry ∷ main_turn false ∷ main_turn false ∷ []) s).main_pc ≡ MainPc.finished)
    × (s.is_armed ≡ false
        → before_arming s.main_pc ≡ false
        → (us : List Turn) → (run step us s).main_pc ≢ MainPc.finished)
alarm_stops_example = alarm_stops asleep
