-- ===== src/Processes/WaitPid.antt =====
-- Chapter 2/waitpid_example.cpp: a parent that forks two children and reports how they ended. A turn
-- names the process that moves; the parent's says also whether its fork fails, and which of two ended
-- children a wait for any child takes.
pub mod Reports
mod Examples
use c_programming_for_linux.Prelude.{
  ℕ, ◌%◌, Bool, true, false, List, [], ◌∷◌, Option, none, some, ◌==◌, if◌then◌else◌,
}

pub data Child : Type 0 where
  first second : Child

pub data Turn : Type 0 where
  parent : (choice : Bool) → Turn
  child : Child → Turn

-- A child that has exited is a zombie until the parent has waited for it.
pub data ChildPc : Type 0 where
  absent printing exiting zombie reaped : ChildPc

pub data ParentPc : Type 0 where
  forking0 forking1 waiting0 reporting0 waiting1 reporting1 finished : ParentPc

-- A `pid_t` that fork returned to the parent: a child's, or -1.
abbrev pub Pid : Type 0
Pid = Option Child

pub data Line : Type 0 where
  child_id : Child → Line
  terminated : Pid → (status : ℕ) → Line

-- `printed` has the newest line first.
pub record State : Type 0 where
  pub parent_pc : ParentPc
  pub pids0 : Pid
  pub pids1 : Pid
  pub status : ℕ
  pub first_pc : ChildPc
  pub second_pc : ChildPc
  pub printed : List Line

abbrev pub main_started : State
main_started = record {
  parent_pc = ParentPc.forking0;
  pids0 = none;
  pids1 = none;
  status = 0;
  first_pc = ChildPc.absent;
  second_pc = ChildPc.absent;
  printed = [];
}

-- The wait status of `exit(EXIT_SUCCESS)` and of `exit(EXIT_FAILURE)`.
pub wait_status : Child → ℕ
wait_status first = 0
wait_status second = 256

-- `WIFEXITED`
pub is_exited : ℕ → Bool
is_exited status = status % 128 == 0

abbrev pub is_zombie : ChildPc → Bool
is_zombie ChildPc.zombie = true
is_zombie pc = false

abbrev pub is_running : ChildPc → Bool
is_running ChildPc.printing = true
is_running ChildPc.exiting = true
is_running pc = false

pub reap : Child → State → State
unfolding wait_status
reap first s = record s { first_pc = ChildPc.reaped; status = wait_status first }
reap second s = record s { second_pc = ChildPc.reaped; status = wait_status second }

-- A wait for one child: it blocks while the child runs, and fails if there is none to wait for.
pub wait_one : Child → ChildPc → State → Option State
unfolding reap
wait_one c ChildPc.zombie s = some (reap c s)
wait_one c ChildPc.absent s = some s
wait_one c ChildPc.reaped s = some s
wait_one c pc s = none

-- `waitpid`, which with -1 waits for any child.
pub waitpid : Bool → Pid → State → Option State
unfolding wait_one
waitpid choice (some first) s = wait_one first s.first_pc s
waitpid choice (some second) s = wait_one second s.second_pc s
waitpid choice none s =
    if is_zombie s.first_pc
    then if is_zombie s.second_pc
      then if choice then some (reap second s) else some (reap first s)
      else some (reap first s)
    else if is_zombie s.second_pc
    then some (reap second s)
    else if is_running s.first_pc
    then none
    else if is_running s.second_pc
    then none
    else some s

pub report : Pid → State → State
unfolding is_exited
report pid s =
    if is_exited s.status then record s { printed = terminated pid s.status ∷ s.printed } else s

-- `process_creator` in the parent.
pub parent_step : Bool → ParentPc → State → Option State
unfolding waitpid report
parent_step choice ParentPc.forking0 s =
    if choice
    then some (record s { pids0 = none; parent_pc = ParentPc.forking1 })
    else some (record s {
      pids0 = some first;
      first_pc = ChildPc.printing;
      parent_pc = ParentPc.forking1;
    })
parent_step choice ParentPc.forking1 s =
    if choice
    then some (record s { pids1 = none; parent_pc = ParentPc.waiting0 })
    else some (record s {
      pids1 = some second;
      second_pc = ChildPc.printing;
      parent_pc = ParentPc.waiting0;
    })
parent_step choice ParentPc.waiting0 s = elim (waitpid choice s.pids0 s) [
  | none ↦ none
  | some s' ↦ some (record s' { parent_pc = ParentPc.reporting0 })
]
parent_step choice ParentPc.reporting0 s =
    some (record (report s.pids0 s) { parent_pc = ParentPc.waiting1 })
parent_step choice ParentPc.waiting1 s = elim (waitpid choice s.pids1 s) [
  | none ↦ none
  | some s' ↦ some (record s' { parent_pc = ParentPc.reporting1 })
]
parent_step choice ParentPc.reporting1 s =
    some (record (report s.pids1 s) { parent_pc = ParentPc.finished })
parent_step choice ParentPc.finished s = none

-- `process_creator` in a child, over its place.
pub child_body : Child → ChildPc → List Line → Option (ChildPc × List Line)
child_body c ChildPc.printing printed = some (ChildPc.exiting, child_id c ∷ printed)
child_body c ChildPc.exiting printed = some (ChildPc.zombie, printed)
child_body c pc printed = none

pub child_step : Child → State → Option State
unfolding child_body
child_step first s = elim (child_body first s.first_pc s.printed) [
  | none ↦ none
  | some (pc, printed) ↦ some (record s { first_pc = pc; printed = printed })
]
child_step second s = elim (child_body second s.second_pc s.printed) [
  | none ↦ none
  | some (pc, printed) ↦ some (record s { second_pc = pc; printed = printed })
]

pub step : Turn → State → Option State
unfolding parent_step child_step
step (parent choice) s = parent_step choice s.parent_pc s
step (child c) s = child_step c s
