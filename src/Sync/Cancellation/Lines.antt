-- ===== src/Sync/Cancellation/Lines.antt =====
-- Chapter 9/coop_cancellation.cpp: what is printed, in which orders, and that the program ends.
use c_programming_for_linux.Prelude.{
  ℕ, suc, ◌+◌, ◌<◌, ◌≡◌, ◌≢◌, refl, ◌⊎◌, inl, inr, Bool, true, false, List, [], ◌∷◌, none, some,
  arith, run, run_inv, run_completes, Option-cases,
}
use c_programming_for_linux.Sync.Cancellation.{
  Turn, main_turn, worker_turn, stopper_turn, Line, main_id, currently_working, callback_executed,
  request_executed, MainPc, WorkerPc, StopperPc, State, main_started, main_step, worker_step,
  stopper_step, step,
}

-- The callback's line comes before the request's, and the worker's anywhere after main's.
abbrev pub InOrder : List Line → Type 0
InOrder ls =
    (ls ≡ currently_working ∷ request_executed ∷ callback_executed ∷ main_id ∷ [])
    ⊎ (ls ≡ request_executed ∷ currently_working ∷ callback_executed ∷ main_id ∷ [])
    ⊎ (ls ≡ request_executed ∷ callback_executed ∷ currently_working ∷ main_id ∷ [])

abbrev before : MainPc → List Line
before MainPc.announcing = []
before pc = main_id ∷ []

abbrev Printed : WorkerPc → StopperPc → List Line → List Line → Type 0
Printed WorkerPc.finished StopperPc.absent start ls = false ≡ true
Printed WorkerPc.finished StopperPc.requesting start ls = false ≡ true
Printed WorkerPc.finished StopperPc.calling_back start ls = ls ≡ currently_working ∷ main_id ∷ []
Printed WorkerPc.finished StopperPc.reporting start ls =
    (ls ≡ callback_executed ∷ currently_working ∷ main_id ∷ [])
    ⊎ (ls ≡ currently_working ∷ callback_executed ∷ main_id ∷ [])
Printed WorkerPc.finished StopperPc.finished start ls = InOrder ls
Printed _ StopperPc.absent start ls = ls ≡ start
Printed _ StopperPc.requesting start ls = ls ≡ main_id ∷ []
Printed _ StopperPc.calling_back start ls = ls ≡ main_id ∷ []
Printed _ StopperPc.reporting start ls = ls ≡ callback_executed ∷ main_id ∷ []
Printed _ StopperPc.finished start ls = ls ≡ request_executed ∷ callback_executed ∷ main_id ∷ []

abbrev Started : MainPc → WorkerPc → StopperPc → Bool → Type 0
Started MainPc.announcing worker stopper callback =
    (worker ≡ WorkerPc.absent) × (stopper ≡ StopperPc.absent)
Started MainPc.constructing_worker worker stopper callback =
    (worker ≡ WorkerPc.absent) × (stopper ≡ StopperPc.absent)
Started MainPc.constructing_callback worker stopper callback =
    (worker ≢ WorkerPc.absent) × (stopper ≡ StopperPc.absent)
Started MainPc.constructing_stopper worker stopper callback =
    (worker ≢ WorkerPc.absent) × (stopper ≡ StopperPc.absent) × (callback ≡ true)
Started MainPc.joining worker stopper callback =
    (worker ≢ WorkerPc.absent) × (stopper ≢ StopperPc.absent) × (callback ≡ true)
Started MainPc.finished worker stopper callback =
    (worker ≡ WorkerPc.finished) × (stopper ≡ StopperPc.finished)
Started pc worker stopper callback = (worker ≢ WorkerPc.absent) × (stopper ≡ StopperPc.finished)

abbrev not_requested : StopperPc → Bool
not_requested StopperPc.absent = true
not_requested StopperPc.requesting = true
not_requested pc = false

abbrev may_print : WorkerPc → Bool
may_print WorkerPc.printing = true
may_print WorkerPc.finished = true
may_print pc = false

record Inv (s : State) : Type 0 where
  printed : Printed s.worker_pc s.stopper_pc (before s.main_pc) s.printed
  started : Started s.main_pc s.worker_pc s.stopper_pc s.callback
  waits : not_requested s.stopper_pc ≡ true → s.stop_requested ≡ false
  asked : not_requested s.stopper_pc ≡ false → s.stop_requested ≡ true
  works : may_print s.worker_pc ≡ true → s.stop_requested ≡ true

main-Inv : (pc : MainPc) (s s' : State) → s.main_pc ≡ pc → Inv s → main_step pc s ≡ some s' → Inv s'
unfolding main_step
main-Inv MainPc.announcing s s' at v e = ground arith
main-Inv MainPc.constructing_worker s s' at v e = ground arith
main-Inv MainPc.constructing_callback s s' at v e = ground arith
main-Inv MainPc.constructing_stopper s s' at v e = ground arith
main-Inv MainPc.joining s s' at v e = ground arith
main-Inv MainPc.destroying s s' at v e = ground arith
main-Inv MainPc.joining_worker s s' at v e = ground arith
main-Inv MainPc.finished s s' at v e = ground arith

worker-Inv :
    (pc : WorkerPc) (s s' : State) → s.worker_pc ≡ pc → Inv s → worker_step pc s ≡ some s' → Inv s'
unfolding worker_step
worker-Inv WorkerPc.absent s s' at v e = ground arith
worker-Inv WorkerPc.waiting s s' at v e = ground arith
worker-Inv WorkerPc.printing s s' at v e = ground arith
worker-Inv WorkerPc.finished s s' at v e = ground arith

stopper-Inv :
    (pc : StopperPc) (s s' : State)
    → s.stopper_pc ≡ pc
    → Inv s
    → stopper_step pc s ≡ some s'
    → Inv s'
unfolding stopper_step
stopper-Inv StopperPc.absent s s' at v e = ground arith
stopper-Inv StopperPc.requesting s s' at v e = ground arith
stopper-Inv StopperPc.calling_back s s' at v e = ground arith
stopper-Inv StopperPc.reporting s s' at v e = ground arith
stopper-Inv StopperPc.finished s s' at v e = ground arith

step-Inv : (t : Turn) (s s' : State) → Inv s → step t s ≡ some s' → Inv s'
unfolding step
step-Inv main_turn s s' v e = main-Inv s.main_pc s s' refl v e
step-Inv worker_turn s s' v e = worker-Inv s.worker_pc s s' refl v e
step-Inv stopper_turn s s' v e = stopper-Inv s.stopper_pc s s' refl v e

run-Inv : (ts : List Turn) → Inv (run step ts main_started)
run-Inv ts = run_inv step Inv step-Inv ts main_started (record {
  printed = refl;
  started = (refl, refl);
  waits = λ e. refl;
  asked = λ e. absurd (ground (arith, e));
  works = λ e. absurd (ground (arith, e));
})

abbrev main_left : MainPc → ℕ
main_left MainPc.announcing = 30
main_left MainPc.constructing_worker = 20
main_left MainPc.constructing_callback = 15
main_left MainPc.constructing_stopper = 10
main_left MainPc.joining = 3
main_left MainPc.destroying = 2
main_left MainPc.joining_worker = 1
main_left MainPc.finished = 0

abbrev worker_left : WorkerPc → ℕ
worker_left WorkerPc.absent = 0
worker_left WorkerPc.waiting = 2
worker_left WorkerPc.printing = 1
worker_left WorkerPc.finished = 0

abbrev stopper_left : StopperPc → ℕ
stopper_left StopperPc.absent = 0
stopper_left StopperPc.requesting = 3
stopper_left StopperPc.calling_back = 2
stopper_left StopperPc.reporting = 1
stopper_left StopperPc.finished = 0

abbrev work_left : State → ℕ
work_left s = main_left s.main_pc + (worker_left s.worker_pc + stopper_left s.stopper_pc)

step-lowers : (t : Turn) (s s' : State) → Inv s → step t s ≡ some s' → work_left s' < work_left s
unfolding step main_step worker_step stopper_step
step-lowers main_turn s s' v e = ground (arith, v.started)
step-lowers worker_turn s s' v e = ground arith
step-lowers stopper_turn s s' v e = ground arith

abbrev pub ended : State → Bool
ended s = elim s.main_pc [ MainPc.finished ↦ true | _ ↦ false ]

stuck_ended :
    (s : State)
    → Inv s
    → step main_turn s ≡ none
    → step worker_turn s ≡ none
    → step stopper_turn s ≡ none
    → ended s ≡ true
unfolding step main_step worker_step stopper_step
stuck_ended s v e0 e1 e2 = ground arith

some_moves : (s : State) → Inv s → ended s ≡ false → (t : Turn) × (step t s ≢ none)
some_moves s v h = elim (Option-cases (step main_turn s)) [
  | inr (s', e) ↦ (main_turn, λ stuck. ground (arith, e, stuck))
  | inl e0 ↦ elim (Option-cases (step worker_turn s)) [
    | inr (s', e) ↦ (worker_turn, λ stuck. ground (arith, e, stuck))
    | inl e1 ↦ (stopper_turn, λ e2. ground (arith, h, stuck_ended s v e0 e1 e2))
  ]
]

-- Under every schedule the worker prints only after the stop has been requested, and when main has
-- ended the four lines have been printed, main's first and the callback's before the request's; from
-- every state that a schedule leads to, some further schedule ends the program.
pub cancellation_lines :
    (ts : List Turn)
    → let s = run step ts main_started in
      (s.worker_pc ≡ WorkerPc.finished → s.stop_requested ≡ true)
      × (ended s ≡ true → InOrder s.printed)
      × ((us : List Turn) × (ended (run step us s) ≡ true))
cancellation_lines ts =
    let s = run step ts main_started in
    let v = run-Inv ts in
    (
      λ e. ground (arith, e, v.works),
      λ e. ground (arith, e, v.started, v.printed),
      run_completes step Inv ended work_left step-Inv step-lowers some_moves (suc (work_left s)) s
          (omega arith) v,
    )
