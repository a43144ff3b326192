-- ===== src/Sync/StopTokens/Requests.antt =====
-- Chapter 6/stop-source.cpp and Chapter 6/stop-token.cpp: each move lowers the work once the stops
-- are requested.
use c_programming_for_linux.Prelude.{
  ℕ, ◌+◌, ◌≤◌, ◌<◌, ◌≡◌, refl, Bool, true, false, List, [], some, get_elem?, sum_by, sum_by-set,
  All-get, arith,
}
use c_programming_for_linux.Sync.StopTokens.{
  Turn, main_turn, worker_turn, Pc, Worker, MainPc, State, stop_requested, main_step, worker_body,
  step,
}
use c_programming_for_linux.Sync.StopTokens.Polling.{
  WorkerFits, MainFits, Inv, worker_step_inverted, step-Inv,
}

abbrev pub has_requested : MainPc → Bool
has_requested MainPc.starting = false
has_requested MainPc.requesting = false
has_requested pc = true

pub record Asked (s : State) : Type 0 where
  pub inv : Inv s
  pub asked : has_requested s.main_pc ≡ true

main-keeps :
    (pc : MainPc) (s s' : State)
    → s.main_pc ≡ pc
    → has_requested s.main_pc ≡ true
    → main_step pc s ≡ some s'
    → has_requested s'.main_pc ≡ true
unfolding main_step
main-keeps MainPc.starting s s' at h e = absurd (ground (arith, at, h))
main-keeps MainPc.requesting s s' at h e = absurd (ground (arith, at, h))
main-keeps MainPc.printing s s' at h e = ground (arith, e)
main-keeps MainPc.joining s s' at h e = ground (arith, e)
main-keeps MainPc.finished s s' at h e = absurd (ground (arith, e))

pub step-Asked : (t : Turn) (s s' : State) → Asked s → step t s ≡ some s' → Asked s'
unfolding step
step-Asked main_turn s s' v e = record {
  inv = step-Inv main_turn s s' v.inv e;
  asked = main-keeps s.main_pc s s' refl v.asked e;
}
step-Asked (worker_turn i) s s' v e = record {
  inv = step-Inv (worker_turn i) s s' v.inv e;
  asked =
      let (t, t', there, moved, same) = worker_step_inverted i s s' e in
      ground (arith, same, v.asked);
}

abbrev pc_left : Pc → ℕ
pc_left Pc.working = 4
pc_left Pc.sleeping = 3
pc_left Pc.testing = 2
pc_left Pc.stopping = 1
pc_left Pc.finished = 0

abbrev main_left : MainPc → ℕ
main_left MainPc.printing = 2
main_left MainPc.joining = 1
main_left pc = 0

abbrev left : Worker → ℕ
left t = pc_left t.pc

abbrev pub work_left : State → ℕ
work_left s = main_left s.main_pc + sum_by left s.workers

-- The lines that a worker has printed in its loop, and the one that it may still print.
abbrev pub may_work : Worker → ℕ
may_work t = elim t.pc [ Pc.working ↦ t.worked + 1 | _ ↦ t.worked ]

none_to_request :
    (pc : MainPc) (to_start to_request : List ℕ)
    → has_requested pc ≡ true
    → MainFits pc to_start to_request
    → to_request ≡ []
none_to_request MainPc.starting to_start to_request h m = absurd (ground (arith, h))
none_to_request MainPc.requesting to_start to_request h m = absurd (ground (arith, h))
none_to_request MainPc.printing to_start to_request h m = m.1
none_to_request MainPc.joining to_start to_request h m = m.1
none_to_request MainPc.finished to_start to_request h m = m.1

stop_is_known :
    (i : ℕ) (s : State) (t : Worker)
    → Asked s
    → get_elem? s.workers i ≡ some t
    → stop_requested s.stop_states t.token ≡ true
stop_is_known i s t v there =
    let none_left : s.to_request ≡ [] =
      none_to_request s.main_pc s.to_start s.to_request v.asked v.inv.placed in
    let fits = All-get (WorkerFits s.stop_states s.to_request) s.workers i t v.inv.fits there in
    ground (arith, none_left, fits.0.1)

body-lowers :
    (states : List Bool) (t t' : Worker) (pc : Pc)
    → t.pc ≡ pc
    → stop_requested states t.token ≡ true
    → worker_body states t pc ≡ some t'
    → (left t' < left t) × (may_work t' ≤ may_work t)
unfolding worker_body
body-lowers states t t' Pc.testing at h e = ground arith
body-lowers states t t' Pc.working at h e = ground arith
body-lowers states t t' Pc.sleeping at h e = ground arith
body-lowers states t t' Pc.stopping at h e = ground arith
body-lowers states t t' Pc.finished at h e = absurd (ground (arith, e))

main-lowers :
    (pc : MainPc) (s s' : State)
    → s.main_pc ≡ pc
    → has_requested s.main_pc ≡ true
    → main_step pc s ≡ some s'
    → (s'.workers ≡ s.workers) × (main_left s'.main_pc < main_left s.main_pc)
unfolding main_step
main-lowers MainPc.starting s s' at h e = absurd (ground (arith, at, h))
main-lowers MainPc.requesting s s' at h e = absurd (ground (arith, at, h))
main-lowers MainPc.printing s s' at h e = ground (arith, at, e)
main-lowers MainPc.joining s s' at h e = ground (arith, at, e)
main-lowers MainPc.finished s s' at h e = absurd (ground (arith, e))

pub step-lowers :
    (t : Turn) (s s' : State)
    → Asked s
    → step t s ≡ some s'
    → (work_left s' < work_left s) × (sum_by may_work s'.workers ≤ sum_by may_work s.workers)
unfolding step
step-lowers main_turn s s' v e =
    let (same, less) = main-lowers s.main_pc s s' refl v.asked e in ground (arith, same, less)
step-lowers (worker_turn i) s s' v e =
    let (t, t', there, moved, same) = worker_step_inverted i s s' e in
    let (less, bounded) =
      body-lowers s.stop_states t t' t.pc refl (stop_is_known i s t v there) moved in
    let sum1 = sum_by-set left s.workers i t t' there in
    let sum2 = sum_by-set may_work s.workers i t t' there in
    ground (arith, same, less, bounded, sum1, sum2)
