-- ===== src/Sync/Notification/Wakeups.antt =====
-- Chapter 9/condition_var.cpp: the notification that comes first is lost.
use c_programming_for_linux.Prelude.{
  ◌≡◌, ◌≢◌, inl, inr, refl, Bool, true, false, List, [], ◌∷◌, some, arith, run, Option-cases,
}
use c_programming_for_linux.Sync.Notification.{
  Turn, t1, t2, spurious_wakeup, WaitingPc, DonePc, State, step,
}

-- The waiter has not been woken yet.
abbrev pub is_early : WaitingPc → Bool
is_early WaitingPc.locking = true
is_early WaitingPc.waiting = true
is_early WaitingPc.asleep = true
is_early _ = false

-- No turn of a schedule is a wake-up without a notification.
abbrev pub WithoutSpurious : List Turn → Type 0
WithoutSpurious [] = Unit
WithoutSpurious (t ∷ ts) = (t ≢ spurious_wakeup) × WithoutSpurious ts

record Lost (s : State) : Type 0 where
  notified : s.done_pc ≡ DonePc.finished
  early : is_early s.waiting_pc ≡ true

step-Lost : (t : Turn) (s s' : State) → t ≢ spurious_wakeup → Lost s → step t s ≡ some s' → Lost s'
unfolding step
step-Lost t1 s s' ne v e = ground arith
step-Lost t2 s s' ne v e = ground arith
step-Lost spurious_wakeup s s' ne v e = absurd (ne refl)

run-Lost : (ts : List Turn) (s : State) → WithoutSpurious ts → Lost s → Lost (run step ts s)
unfolding run
run-Lost [] s w v = v
run-Lost (t ∷ ts) s w v = elim (Option-cases (step t s)) [
  | inl stuck ↦ rw stuck (run-Lost ts s w.1 v)
  | inr (s', moved) ↦ rw moved (run-Lost ts s' w.1 (step-Lost t s s' w.0 v moved))
]

-- If `done` has notified before the other thread sleeps, that thread is never woken, under every
-- schedule in which no wake-up comes without a notification.
pub early_notification_lost :
    (s : State) (ts : List Turn)
    → s.done_pc ≡ DonePc.finished
    → is_early s.waiting_pc ≡ true
    → WithoutSpurious ts
    → is_early (run step ts s).waiting_pc ≡ true
early_notification_lost s ts notified early without =
    (run-Lost ts s without (record { notified = notified; early = early })).early
