-- ===== src/Processes/WaitPid/Reports.antt =====
-- Chapter 2/waitpid_example.cpp: which reports the parent makes, by the forks that succeed.
use c_programming_for_linux.Prelude.{
  ℕ, suc, ◌+◌, ◌<◌, ◌≡◌, ◌≢◌, refl, inl, inr, Bool, true, false, List, [], ◌∷◌, none, some, arith,
  run, run_inv, run_completes, Option-cases, Bool-cases,
}
use c_programming_for_linux.Processes.WaitPid.{
  Child, first, second, Turn, parent, child, ChildPc, ParentPc, Pid, Line, child_id, terminated,
  State, main_started, wait_status, is_exited, is_running, reap, wait_one, waitpid, report,
  parent_step, child_body, child_step, step,
}

-- The parent's lines.
abbrev pub reports : List Line → List (Pid × ℕ)
reports [] = []
reports (child_id c ∷ ls) = reports ls
reports (terminated pid status ∷ ls) = (pid, status) ∷ reports ls

-- The status after each wait: a wait for -1 takes the other child, and one that fails leaves the status
-- as it was.
abbrev pub first_status : Pid → Pid → ℕ
first_status (some c) pid = 0
first_status none (some c) = 256
first_status none none = 0

abbrev pub second_status : Pid → ℕ
second_status (some c) = 256
second_status none = 0

abbrev pub expected : Pid → Pid → List (Pid × ℕ)
expected pids0 pids1 = (pids1, second_status pids1) ∷ (pids0, first_status pids0 pids1) ∷ []

abbrev Unreaped : Child → Pid → ChildPc → Type 0
Unreaped c none pc = pc ≡ ChildPc.absent
Unreaped c (some c') ChildPc.absent = false ≡ true
Unreaped c (some c') ChildPc.reaped = false ≡ true
Unreaped c (some c') pc = c' ≡ c

abbrev Reaped : Child → Pid → ChildPc → Type 0
Reaped c none pc = pc ≡ ChildPc.absent
Reaped c (some c') pc = (c' ≡ c) × (pc ≡ ChildPc.reaped)

-- The second child while the parent is between its waits.
abbrev Between : Pid → Pid → ChildPc → Type 0
Between none pids1 pc = Reaped second pids1 pc
Between (some c) pids1 pc = Unreaped second pids1 pc

abbrev Fits : ParentPc → State → Type 0
Fits ParentPc.forking0 s =
    (s.first_pc ≡ ChildPc.absent)
    × (s.second_pc ≡ ChildPc.absent)
    × (s.status ≡ 0)
    × (reports s.printed ≡ [])
Fits ParentPc.forking1 s =
    Unreaped first s.pids0 s.first_pc
    × (s.second_pc ≡ ChildPc.absent)
    × (s.status ≡ 0)
    × (reports s.printed ≡ [])
Fits ParentPc.waiting0 s =
    Unreaped first s.pids0 s.first_pc
    × Unreaped second s.pids1 s.second_pc
    × (s.status ≡ 0)
    × (reports s.printed ≡ [])
Fits ParentPc.reporting0 s =
    Reaped first s.pids0 s.first_pc
    × Between s.pids0 s.pids1 s.second_pc
    × (s.status ≡ first_status s.pids0 s.pids1)
    × (reports s.printed ≡ [])
Fits ParentPc.waiting1 s =
    Reaped first s.pids0 s.first_pc
    × Between s.pids0 s.pids1 s.second_pc
    × (s.status ≡ first_status s.pids0 s.pids1)
    × (reports s.printed ≡ (s.pids0, first_status s.pids0 s.pids1) ∷ [])
Fits ParentPc.reporting1 s =
    Reaped first s.pids0 s.first_pc
    × Reaped second s.pids1 s.second_pc
    × (s.status ≡ second_status s.pids1)
    × (reports s.printed ≡ (s.pids0, first_status s.pids0 s.pids1) ∷ [])
Fits ParentPc.finished s =
    Reaped first s.pids0 s.first_pc
    × Reaped second s.pids1 s.second_pc
    × (reports s.printed ≡ expected s.pids0 s.pids1)

abbrev Inv : State → Type 0
Inv s = Fits s.parent_pc s

parent-Inv :
    (choice : Bool) (pc : ParentPc) (s s' : State)
    → s.parent_pc ≡ pc
    → Fits pc s
    → parent_step choice pc s ≡ some s'
    → Inv s'
unfolding parent_step waitpid wait_one reap wait_status report is_exited
parent-Inv choice ParentPc.forking0 s s' at v e = ground arith
parent-Inv choice ParentPc.forking1 s s' at v e = ground arith
parent-Inv choice ParentPc.waiting0 s s' at v e = ground arith
parent-Inv choice ParentPc.reporting0 s s' at v e = ground arith
parent-Inv choice ParentPc.waiting1 s s' at v e = ground arith
parent-Inv choice ParentPc.reporting1 s s' at v e = ground arith
parent-Inv choice ParentPc.finished s s' at v e = ground arith

child-Inv :
    (c : Child) (pc : ParentPc) (s s' : State)
    → s.parent_pc ≡ pc
    → Fits pc s
    → child_step c s ≡ some s'
    → Inv s'
unfolding child_step child_body
child-Inv first ParentPc.forking0 s s' at v e = ground arith
child-Inv first ParentPc.forking1 s s' at v e = ground arith
child-Inv first ParentPc.waiting0 s s' at v e = ground arith
child-Inv first ParentPc.reporting0 s s' at v e = ground arith
child-Inv first ParentPc.waiting1 s s' at v e = ground arith
child-Inv first ParentPc.reporting1 s s' at v e = ground arith
child-Inv first ParentPc.finished s s' at v e = ground arith
child-Inv second ParentPc.forking0 s s' at v e = ground arith
child-Inv second ParentPc.forking1 s s' at v e = ground arith
child-Inv second ParentPc.waiting0 s s' at v e = ground arith
child-Inv second ParentPc.reporting0 s s' at v e = ground arith
child-Inv second ParentPc.waiting1 s s' at v e = ground arith
child-Inv second ParentPc.reporting1 s s' at v e = ground arith
child-Inv second ParentPc.finished s s' at v e = ground arith

step-Inv : (t : Turn) (s s' : State) → Inv s → step t s ≡ some s' → Inv s'
unfolding step
step-Inv (parent choice) s s' v e = parent-Inv choice s.parent_pc s s' refl v e
step-Inv (child c) s s' v e = child-Inv c s.parent_pc s s' refl v e

run-Inv : (ts : List Turn) → Inv (run step ts main_started)
run-Inv ts = run_inv step Inv step-Inv ts main_started (refl, refl, refl, refl)

abbrev parent_left : ParentPc → ℕ
parent_left ParentPc.forking0 = 30
parent_left ParentPc.forking1 = 20
parent_left ParentPc.waiting0 = 4
parent_left ParentPc.reporting0 = 3
parent_left ParentPc.waiting1 = 2
parent_left ParentPc.reporting1 = 1
parent_left ParentPc.finished = 0

abbrev child_left : ChildPc → ℕ
child_left ChildPc.printing = 2
child_left ChildPc.exiting = 1
child_left pc = 0

abbrev work_left : State → ℕ
work_left s = parent_left s.parent_pc + (child_left s.first_pc + child_left s.second_pc)

parent-lowers :
    (choice : Bool) (pc : ParentPc) (s s' : State)
    → s.parent_pc ≡ pc
    → Fits pc s
    → parent_step choice pc s ≡ some s'
    → work_left s' < work_left s
unfolding parent_step waitpid wait_one reap report is_exited
parent-lowers choice ParentPc.forking0 s s' at v e = ground arith
parent-lowers choice ParentPc.forking1 s s' at v e = ground arith
parent-lowers choice ParentPc.waiting0 s s' at v e = ground arith
parent-lowers choice ParentPc.reporting0 s s' at v e = ground arith
parent-lowers choice ParentPc.waiting1 s s' at v e = ground arith
parent-lowers choice ParentPc.reporting1 s s' at v e = ground arith
parent-lowers choice ParentPc.finished s s' at v e = ground arith

child-lowers : (c : Child) (s s' : State) → child_step c s ≡ some s' → work_left s' < work_left s
unfolding child_step child_body
child-lowers first s s' e = ground arith
child-lowers second s s' e = ground arith

step-lowers : (t : Turn) (s s' : State) → Inv s → step t s ≡ some s' → work_left s' < work_left s
unfolding step
step-lowers (parent choice) s s' v e = parent-lowers choice s.parent_pc s s' refl v e
step-lowers (child c) s s' v e = child-lowers c s s' e

abbrev pub has_finished : State → Bool
has_finished s = elim s.parent_pc [ ParentPc.finished ↦ true | _ ↦ false ]

-- A parent that cannot move waits for a child that is running.
parent_waits :
    (pc : ParentPc) (s : State)
    → s.parent_pc ≡ pc
    → has_finished s ≡ false
    → parent_step false pc s ≡ none
    → (is_running s.first_pc ≡ false)
    → is_running s.second_pc ≡ true
unfolding parent_step waitpid wait_one
parent_waits pc s at h e idle = ground arith

running-moves :
    (c : Child) (pc : ChildPc) (ls : List Line) → is_running pc ≡ true → child_body c pc ls ≢ none
unfolding child_body
running-moves c pc ls h = ground arith

some_moves : (s : State) → Inv s → has_finished s ≡ false → (t : Turn) × (step t s ≢ none)
unfolding step child_step
some_moves s v h = elim (Option-cases (parent_step false s.parent_pc s)) [
  | inr (s', e) ↦ (parent false, λ stuck. ground (arith, e, stuck))
  | inl e0 ↦ elim (Bool-cases (is_running s.first_pc)) [
    | inl r ↦ (child first, λ e1. ground (arith, e1, running-moves first s.first_pc s.printed r))
    | inr idle ↦
        let r = parent_waits s.parent_pc s refl h e0 idle in
        (child second, λ e1. ground (arith, e1, running-moves second s.second_pc s.printed r))
  ]
]

-- Under every schedule, whichever forks fail, a parent that has finished has made two reports: of the
-- statuses 0 and 256 if both forks succeeded; of 256 for both waits if only the first fork failed, whose
-- -1 then makes the first wait take the second child; and of 0 else. From every state that a schedule
-- leads to, some further schedule brings the parent to its end.
pub wait_reports :
    (ts : List Turn)
    → let s = run step ts main_started in
      (has_finished s ≡ true → reports s.printed ≡ expected s.pids0 s.pids1)
      × ((us : List Turn) × (has_finished (run step us s) ≡ true))
wait_reports ts =
    let s = run step ts main_started in
    let v = run-Inv ts in
    (
      λ e. ground (arith, e, v),
      run_completes step Inv has_finished work_left step-Inv step-lowers some_moves
          (suc (work_left s)) s (omega arith) v,
    )
