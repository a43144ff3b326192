-- ===== src/Coroutines/Task/Uses.antt =====
-- Chapter 10/coroutines.cpp: a task is to be used exactly once.
use c_programming_for_linux.Prelude.{
  ◌≡◌, refl, true, false, List, [], ◌∷◌, leb, length, if◌then◌else◌, arith,
}
use c_programming_for_linux.Coroutines.Task.{
  suspended_at_start, destroyed, Op, resume, destroy, ex_coroutine, call, calls,
}

faulted_stays :
    (ops : List Op)
    → calls ops (record { frame = destroyed; faulted = true })
      ≡ record { frame = destroyed; faulted = true }
unfolding calls call
faulted_stays [] = refl
faulted_stays (resume ∷ ops) = faulted_stays ops
faulted_stays (destroy ∷ ops) = faulted_stays ops

destroyed_faults :
    (ops : List Op)
    → ((calls ops (record { frame = destroyed; faulted = false })).frame ≡ destroyed)
      × ((calls ops (record { frame = destroyed; faulted = false })).faulted ≡ leb 1 (length ops))
unfolding calls call
destroyed_faults [] = (refl, refl)
destroyed_faults (resume ∷ ops) = ground (arith, faulted_stays ops)
destroyed_faults (destroy ∷ ops) = ground (arith, faulted_stays ops)

-- For any calls in any order: the frame is still there exactly if there was none, so that it leaks, and
-- a frame is used that is gone exactly if there were two or more.
pub task_used_once :
    (ops : List Op)
    → ((calls ops ex_coroutine).frame
        ≡ (if leb 1 (length ops) then destroyed else suspended_at_start))
      × ((calls ops ex_coroutine).faulted ≡ leb 2 (length ops))
unfolding calls call ex_coroutine
task_used_once [] = (refl, refl)
task_used_once (resume ∷ ops) = ground (arith, destroyed_faults ops)
task_used_once (destroy ∷ ops) = ground (arith, destroyed_faults ops)
