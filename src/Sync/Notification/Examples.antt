-- ===== src/Sync/Notification/Examples.antt =====
-- Chapter 9/condition_var.cpp: runs of the two threads.
use c_programming_for_linux.Prelude.{◌≡◌, refl, [], ◌∷◌, run}
use c_programming_for_linux.Sync.Notification.{t1, t2, WaitingPc, main_started, step}

woken :
    (run step (t1 ∷ t1 ∷ t2 ∷ t2 ∷ t1 ∷ t1 ∷ t1 ∷ []) main_started).waiting_pc ≡ WaitingPc.finished
unfolding run step
woken = refl
