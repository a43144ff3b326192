-- ===== src/Sync/Event/Completion.antt =====
-- Chapter 10/shmem_coroutines.cpp: both threads end.
use c_programming_for_linux.Prelude.{
  ℕ, suc, ◌+◌, ◌<◌, ◌≡◌, ◌≢◌, inl, inr, List, none, some, Bool, true, false, ◌||◌, if◌then◌else◌,
  arith, run, run_completes, Bool-cases,
}
use c_programming_for_linux.Sync.Event.{
  Thread, receiver_t, sender_t, Granted, Coroutine, SenderPc, State, main_started, step,
}
use c_programming_for_linux.Sync.Event.Delivery.{Inv, step-Inv, run-Inv}

-- Both threads have ended, or the signal has ended the program.
abbrev pub ended : State → Bool
ended s =
    s.killed
    || elim s.sender_pc [ SenderPc.finished ↦ if s.on_receiver then false else true | _ ↦ false ]

module _ (os : Granted) (message : ℕ) where
  abbrev coroutine_left : Coroutine → ℕ
  coroutine_left Coroutine.handling = 7
  coroutine_left Coroutine.testing = 6
  coroutine_left Coroutine.storing = 5
  coroutine_left Coroutine.suspended = 4
  coroutine_left Coroutine.truncating = 3
  coroutine_left Coroutine.mapping = 2
  coroutine_left Coroutine.printing = 1
  coroutine_left Coroutine.returned = 0

  abbrev sender_left : SenderPc → ℕ
  sender_left SenderPc.clearing = 7
  sender_left SenderPc.loading = 6
  sender_left SenderPc.truncating = 5
  sender_left SenderPc.mapping = 4
  sender_left SenderPc.constructing = 3
  sender_left SenderPc.resuming = 2
  sender_left SenderPc.resumed = 1
  sender_left SenderPc.finished = 0

  abbrev work_left : State → ℕ
  work_left s = (if s.killed then 0 else 1) + coroutine_left s.coroutine + sender_left s.sender_pc

  step-lowers-work_left :
      (t : Thread) (s s' : State)
      → Inv os message s
      → step os message t s ≡ some s'
      → work_left s' < work_left s
  unfolding step
  step-lowers-work_left receiver_t s s' v e = ground arith
  step-lowers-work_left sender_t s s' v e = ground arith

  receiver_moves :
      (s : State)
      → Inv os message s
      → s.on_receiver ≡ true
      → s.killed ≡ false
      → step os message receiver_t s ≢ none
  unfolding step
  receiver_moves s v on k e = ground arith

  sender_moves :
      (s : State)
      → Inv os message s
      → s.on_receiver ≡ false
      → ended s ≡ false
      → step os message sender_t s ≢ none
  unfolding step
  sender_moves s v off h e = ground arith

  some_moves :
      (s : State) → Inv os message s → ended s ≡ false → (t : Thread) × (step os message t s ≢ none)
  some_moves s v h = elim (Bool-cases s.on_receiver) [
    | inl e ↦ (receiver_t, receiver_moves s v e (ground (arith, h)))
    | inr e ↦ (sender_t, sender_moves s v e h)
  ]

  -- Whatever the system grants: from every state that a schedule leads to, some further schedule
  -- brings both threads to their ends, or the program to the signal.
  pub event_threads_end :
      (ts : List Thread)
      → (us : List Thread) × (ended
            (run (step os message) us (run (step os message) ts main_started))
          ≡ true)
  event_threads_end ts =
      run_completes (step os message) (Inv os message) ended work_left (step-Inv os message)
        step-lowers-work_left some_moves (suc (work_left (run (step os message) ts main_started)))
        (run (step os message) ts main_started) (omega arith) (run-Inv os message ts)
