-- ===== src/Sync/Promise/Delivery.antt =====
-- Chapter 6/future-promise.cpp: main gets the thread's text, after the thread has ended.
use c_programming_for_linux.Prelude.{
  ℕ, suc, ◌+◌, ◌<◌, ◌≡◌, ◌≢◌, refl, inl, inr, Bool, true, false, List, [], ◌∷◌, Option, none, some,
  arith, run, run_inv, run_completes, Option-cases,
}
use c_programming_for_linux.Sync.Promise.{
  Turn, main_turn, th1, main_ready, text_line, MainPc, ThreadPc, State, main_started, get,
  main_step, thread_step, step,
}

abbrev pub has_ended : {Text : Type 0} → State Text → Bool
has_ended s = elim s.main_pc [ MainPc.finished ↦ true | _ ↦ false ]

module _ {Text : Type 0} (text : Text) where
  abbrev MainFits : MainPc Text → State Text → Type 0
  MainFits MainPc.making s = (s.thread_pc ≡ ThreadPc.absent) × (s.printed ≡ [])
  MainFits MainPc.announcing s = (s.thread_pc ≢ ThreadPc.absent) × (s.printed ≡ [])
  MainFits MainPc.getting s = (s.thread_pc ≢ ThreadPc.absent) × (s.printed ≡ main_ready ∷ [])
  MainFits (MainPc.printing value) s =
      (s.thread_pc ≡ ThreadPc.finished) × (value ≡ text) × (s.printed ≡ main_ready ∷ [])
  MainFits _ s = (s.thread_pc ≡ ThreadPc.finished) × (s.printed ≡ text_line text ∷ main_ready ∷ [])

  abbrev ThreadFits : ThreadPc → Option Text → Bool → Type 0
  ThreadFits ThreadPc.absent value ready = ready ≡ false
  ThreadFits ThreadPc.setting value ready = ready ≡ false
  ThreadFits ThreadPc.exiting value ready = (value ≡ some text) × (ready ≡ false)
  ThreadFits ThreadPc.finished value ready = (value ≡ some text) × (ready ≡ true)

  record Inv (s : State Text) : Type 0 where
    main_fits : MainFits s.main_pc s
    thread_fits : ThreadFits s.thread_pc s.value s.ready

  step-Inv : (t : Turn) (s s' : State Text) → Inv s → step text t s ≡ some s' → Inv s'
  unfolding step main_step thread_step get
  step-Inv main_turn s s' v e = ground arith
  step-Inv th1 s s' v e = ground arith

  abbrev main_left : MainPc Text → ℕ
  main_left MainPc.making = 9
  main_left MainPc.announcing = 4
  main_left MainPc.getting = 3
  main_left (MainPc.printing value) = 2
  main_left MainPc.joining = 1
  main_left MainPc.finished = 0

  abbrev thread_left : ThreadPc → ℕ
  thread_left ThreadPc.setting = 2
  thread_left ThreadPc.exiting = 1
  thread_left pc = 0

  abbrev work_left : State Text → ℕ
  work_left s = main_left s.main_pc + thread_left s.thread_pc

  step-lowers :
      (t : Turn) (s s' : State Text) → Inv s → step text t s ≡ some s' → work_left s' < work_left s
  unfolding step main_step thread_step get
  step-lowers main_turn s s' v e = ground (arith, e, v.main_fits)
  step-lowers th1 s s' v e = ground arith

  stuck_waits :
      (s : State Text)
      → Inv s
      → has_ended s ≡ false
      → step text main_turn s ≡ none
      → step text th1 s ≢ none
  unfolding step main_step thread_step get
  stuck_waits s v h e0 e1 = ground (arith, h, e0, e1, v.main_fits, v.thread_fits)

  some_moves : (s : State Text) → Inv s → has_ended s ≡ false → (t : Turn) × (step text t s ≢ none)
  some_moves s v h = elim (Option-cases (step text main_turn s)) [
    | inr (s', e) ↦ (main_turn, λ stuck. ground (arith, e, stuck))
    | inl e0 ↦ (th1, stuck_waits s v h e0)
  ]

  -- Under every schedule, when main has ended, it has printed its own line and then the text that the
  -- thread has set, and the thread has ended; from every state that a schedule leads to, some further
  -- schedule ends main.
  pub promise_delivers :
      (ts : List Turn)
      → let s = run (step text) ts main_started in
        (has_ended s ≡ true
          → (s.printed ≡ text_line text ∷ main_ready ∷ []) × (s.thread_pc ≡ ThreadPc.finished))
        × ((us : List Turn) × (has_ended (run (step text) us s) ≡ true))
  promise_delivers ts =
      let s = run (step text) ts main_started in
      let v : Inv s =
        run_inv (step text) Inv step-Inv ts main_started
          (record { main_fits = (refl, refl); thread_fits = refl }) in
      (
        λ e. ground (arith, e, v.main_fits),
        run_completes (step text) Inv has_ended work_left step-Inv step-lowers some_moves
            (suc (work_left s)) s (omega arith) v,
      )
