-- ===== src/Sync/StopTokens/Stopped.antt =====
-- Chapter 6/stop-source.cpp and Chapter 6/stop-token.cpp: what follows the stop requests.
use c_programming_for_linux.Prelude.{
  ℕ, suc, ◌+◌, ◌≤◌, ◌≡◌, ◌≢◌, refl, ◌⊎◌, inl, inr, Bool, true, false, List, [], ◌∷◌, none, some,
  length, get_elem?, sum_by, All, All-map, arith, run, run_inv, run_completes, Bool-cases,
}
use c_programming_for_linux.Sync.StopTokens.{
  Turn, main_turn, worker_turn, Pc, Worker, MainPc, State, main_started, stop_requested,
  is_finished, all_finished, main_step, worker_body, worker_step, step,
}
use c_programming_for_linux.Sync.StopTokens.Requests.{
  has_requested, Asked, step-Asked, work_left, may_work, step-lowers,
}
use c_programming_for_linux.Sync.StopTokens.Polling.{
  has_stopped, IsCovered, WorkerFits, Inv, step-Inv, main_started-Inv,
}

-- Where every worker's stop is requested by main: under every schedule, a worker that has left its
-- loop has had its stop requested.
pub stops_on_request :
    (stop_states : List Bool) (tokens requests : List ℕ)
    → All (IsCovered stop_states requests) tokens
    → (ts : List Turn)
    → let s = run step ts (main_started stop_states tokens requests) in
      All (λ t. has_stopped t.pc ≡ true → stop_requested s.stop_states t.token ≡ true) s.workers
stops_on_request stop_states tokens requests h ts =
    let s = run step ts (main_started stop_states tokens requests) in
    let v = run_inv step Inv step-Inv ts _ (main_started-Inv stop_states tokens requests h) in
    All-map (WorkerFits s.stop_states s.to_request)
      (λ t. has_stopped t.pc ≡ true → stop_requested s.stop_states t.token ≡ true)
      (λ t fits. fits.1) s.workers v.fits

search_workers :
    (ts : List Worker)
    → ((i : ℕ) × (t : Worker) × (get_elem? ts i ≡ some t) × (is_finished t.pc ≡ false))
      ⊎ (all_finished ts ≡ true)
unfolding all_finished
search_workers [] = inr refl
search_workers (t ∷ ts) = elim (Bool-cases (is_finished t.pc)) [
  | inl e ↦ elim (search_workers ts) [
    | inl (i, t', there, busy) ↦ inl (suc i, t', there, busy)
    | inr h ↦ inr (ground (arith, e, h))
  ]
  | inr e ↦ inl (0, t, refl, e)
]

busy-moves :
    (states : List Bool) (t : Worker) (pc : Pc)
    → is_finished pc ≡ false
    → worker_body states t pc ≢ none
unfolding worker_body
busy-moves states t Pc.testing h e = ground arith
busy-moves states t Pc.working h e = ground arith
busy-moves states t Pc.sleeping h e = ground arith
busy-moves states t Pc.stopping h e = ground arith
busy-moves states t Pc.finished h e = ground arith

abbrev pub ended : State → Bool
ended s = elim s.main_pc [ MainPc.finished ↦ true | _ ↦ false ]

some_moves : (s : State) → Asked s → ended s ≡ false → (t : Turn) × (step t s ≢ none)
unfolding step worker_step main_step
some_moves s v h = elim (search_workers s.workers) [
  | inl (i, t, there, busy) ↦
      (worker_turn i, λ e. busy-moves s.stop_states t t.pc busy (ground (arith, there, e)))
  | inr all ↦ (main_turn, λ e. ground (arith, h, v.asked, all, e))
]

worked_so_far : (t : Worker) → (t.worked ≤ may_work t) × (may_work t ≤ t.worked + 1)
worked_so_far t = ground arith

-- The lines "is currently working" that have been printed.
abbrev pub lines : State → ℕ
lines s = sum_by (λ t. t.worked) s.workers

sum_by-worked :
    (ts : List Worker)
    → (sum_by (λ t. t.worked) ts ≤ sum_by may_work ts)
      × (sum_by may_work ts ≤ sum_by (λ t. t.worked) ts + length ts)
sum_by-worked [] = (omega arith, omega arith)
sum_by-worked (t ∷ ts) = omega (arith, worked_so_far t, sum_by-worked ts)

run-may_work :
    (us : List Turn) (s : State)
    → Asked s
    → sum_by may_work (run step us s).workers ≤ sum_by may_work s.workers
run-may_work us s v =
    let P : State → Type 0 =
      λ s'. Asked s' × (sum_by may_work s'.workers ≤ sum_by may_work s.workers) in
    (run_inv step P
      (λ t s1 s2 h e. (step-Asked t s1 s2 h.0 e, omega (arith, h.1, step-lowers t s1 s2 h.0 e))) us
      s (v, omega arith)).1

-- Where every worker's stop is requested by main: after main has requested the stops, some further
-- schedule ends the program, and under every further schedule the workers together print at most as
-- many lines in their loops as there are workers.
pub workers_stop :
    (stop_states : List Bool) (tokens requests : List ℕ)
    → All (IsCovered stop_states requests) tokens
    → (ts : List Turn)
    → let s = run step ts (main_started stop_states tokens requests) in
      has_requested s.main_pc ≡ true
      → ((us : List Turn) × (ended (run step us s) ≡ true))
        × ((us : List Turn) → lines (run step us s) ≤ lines s + length s.workers)
workers_stop stop_states tokens requests h ts asked =
    let s = run step ts (main_started stop_states tokens requests) in
    let start = main_started-Inv stop_states tokens requests h in
    let v : Asked s = record { inv = run_inv step Inv step-Inv ts _ start; asked = asked } in
    (
      run_completes step Asked ended work_left step-Asked
          (λ t s1 s2 a e. (step-lowers t s1 s2 a e).0) some_moves (suc (work_left s)) s
          (omega arith) v,
      λ us.
          let s' = run step us s in
          omega (arith, sum_by-worked s'.workers, sum_by-worked s.workers, run-may_work us s v),
    )
