-- ===== src/Sync/SharedRegion.antt =====
-- Chapter 7/shm_example.cpp: a parent process that writes a message into a shared memory region and
-- a child that reads it, with two named semaphores. `main_started` is the state after the three calls
-- of `main` before `process_creator`, from what an earlier run of the program left in the system. A
-- turn says which process moves and whether a call that it makes fails; the results of the calls on
-- semaphores are not tested. The parent's error lines are left out.
pub mod Handover
pub mod Completion
mod Examples
use Prim.Native.String.{String}
use c_programming_for_linux.Prelude.{
  ℕ, ◌+◌, ◌-◌, Bool, true, false, List, [], ◌∷◌, ◌++◌, Option, none, some, ltb, ◌==◌, not,
  if◌then◌else◌, length, take,
}
use c_programming_for_linux.Ipc.Buffer.{codes, array, fill, c_str}

pub data Turn : Type 0 where
  parent child : (fails : Bool) → Turn

-- The next call of each process. `threw` is an exception that nobody catches; `faulted` is an access
-- behind the end of the region or of the buffer, or to a semaphore that was not opened.
pub data ParentPc : Type 0 where
  fork shm_open ftruncate mmap sem_wait memcpy sem_post waitpid munmap shm_unlink : ParentPc
  exited threw faulted : ParentPc

pub data ChildPc : Type 0 where
  absent shm_open mmap sem_wait memcpy print sem_post exited threw faulted : ChildPc

-- "Error opening shm region" and "Error mapping shm region".
pub data ErrorLine : Type 0 where
  error_opening error_mapping : ErrorLine

-- `linked` says whether the name of the region exists; `region` is its content. `prod_open`
-- and `cons_open` say whether `sem_open` has succeeded. `consumed` is what the child prints after "consumed: ".
pub record State : Type 0 where
  pub linked : Bool
  pub region : List ℕ
  pub prod_open : Bool
  pub cons_open : Bool
  pub sem_prod : ℕ
  pub sem_cons : ℕ
  pub parent_pc : ParentPc
  pub child_pc : ChildPc
  pub buffer : List ℕ
  pub consumed : Option (List ℕ)
  pub child_error : Option ErrorLine

abbrev pub shm_size : ℕ
shm_size = 1024

pub produced_data : List ℕ
unfolding codes
produced_data = codes "Some test data, coming!"

-- The values that `sem_open` finds are those of an earlier run, or 0; none is its failure, and then
-- `sem_post` in `main` faults. `post_fails` says whether it fails otherwise.
abbrev pub main_started : Bool → List ℕ → Option ℕ → Option ℕ → Bool → State
main_started linked region sem_prod sem_cons post_fails = record {
  linked = linked;
  region = region;
  prod_open = elim sem_prod [ none ↦ false | some n ↦ true ];
  cons_open = elim sem_cons [ none ↦ false | some n ↦ true ];
  sem_prod = elim sem_prod [ none ↦ 0 | some n ↦ if post_fails then n else n + 1 ];
  sem_cons = elim sem_cons [ none ↦ 0 | some n ↦ n ];
  parent_pc = elim sem_prod [ none ↦ ParentPc.faulted | some n ↦ ParentPc.fork ];
  child_pc = ChildPc.absent;
  buffer = array shm_size;
  consumed = none;
  child_error = none;
}

-- `ftruncate` cuts the region or extends it with zeros.
pub resize : List ℕ → ℕ → List ℕ
resize bytes n = take n (bytes ++ array n)

-- The child has ended, so that `waitpid` returns.
pub has_ended : ChildPc → Bool
has_ended ChildPc.exited = true
has_ended ChildPc.threw = true
has_ended ChildPc.faulted = true
has_ended _ = false

pub parent_step : ParentPc → Bool → State → Option State
unfolding has_ended
parent_step ParentPc.fork fails s =
    if fails
    then some (record s { parent_pc = ParentPc.threw })
    else some (record s { parent_pc = ParentPc.shm_open; child_pc = ChildPc.shm_open })
parent_step ParentPc.shm_open fails s =
    if fails
    then some (record s { parent_pc = ParentPc.threw })
    else some (record s {
      linked = true;
      region = if s.linked then s.region else [];
      parent_pc = ParentPc.ftruncate;
    })
parent_step ParentPc.ftruncate fails s =
    if fails
    then some (record s { parent_pc = ParentPc.threw })
    else some (record s { region = resize s.region shm_size; parent_pc = ParentPc.mmap })
parent_step ParentPc.mmap fails s =
    if fails
    then some (record s { parent_pc = ParentPc.threw })
    else some (record s { parent_pc = ParentPc.sem_wait })
parent_step ParentPc.sem_wait fails s =
    if not s.prod_open
    then some (record s { parent_pc = ParentPc.faulted })
    else if fails
    then some (record s { parent_pc = ParentPc.memcpy })
    else if s.sem_prod == 0
    then none
    else some (record s { sem_prod = s.sem_prod - 1; parent_pc = ParentPc.memcpy })
parent_step ParentPc.memcpy fails s =
    some (record s { region = fill s.region produced_data; parent_pc = ParentPc.sem_post })
parent_step ParentPc.sem_post fails s =
    if not s.cons_open
    then some (record s { parent_pc = ParentPc.faulted })
    else if fails
    then some (record s { parent_pc = ParentPc.waitpid })
    else some (record s { sem_cons = s.sem_cons + 1; parent_pc = ParentPc.waitpid })
parent_step ParentPc.waitpid fails s =
    if has_ended s.child_pc then some (record s { parent_pc = ParentPc.munmap }) else none
parent_step ParentPc.munmap fails s =
    if fails
    then some (record s { parent_pc = ParentPc.threw })
    else some (record s { parent_pc = ParentPc.shm_unlink })
parent_step ParentPc.shm_unlink fails s =
    if fails
    then some (record s { parent_pc = ParentPc.threw })
    else some (record s { linked = false; parent_pc = ParentPc.exited })
parent_step ParentPc.exited fails s = none
parent_step ParentPc.threw fails s = none
parent_step ParentPc.faulted fails s = none

-- The child opens the region without `O_CREAT`.
pub child_step : ChildPc → Bool → State → Option State
child_step ChildPc.absent fails s = none
child_step ChildPc.shm_open fails s =
    if fails
    then some (record s { child_error = some error_opening; child_pc = ChildPc.threw })
    else if s.linked
    then some (record s { child_pc = ChildPc.mmap })
    else some (record s { child_error = some error_opening; child_pc = ChildPc.threw })
child_step ChildPc.mmap fails s =
    if fails
    then some (record s { child_error = some error_mapping; child_pc = ChildPc.threw })
    else some (record s { child_pc = ChildPc.sem_wait })
child_step ChildPc.sem_wait fails s =
    if not s.cons_open
    then some (record s { child_pc = ChildPc.faulted })
    else if fails
    then some (record s { child_pc = ChildPc.memcpy })
    else if s.sem_cons == 0
    then none
    else some (record s { sem_cons = s.sem_cons - 1; child_pc = ChildPc.memcpy })
child_step ChildPc.memcpy fails s =
    if ltb (length s.region) shm_size
    then some (record s { child_pc = ChildPc.faulted })
    else some (record s { buffer = take shm_size s.region; child_pc = ChildPc.print })
child_step ChildPc.print fails s =
    let text = c_str s.buffer in
    if ltb (length text) (length s.buffer)
    then some (record s {
      consumed = if length text == 0 then s.consumed else some text;
      child_pc = ChildPc.sem_post;
    })
    else some (record s { child_pc = ChildPc.faulted })
child_step ChildPc.sem_post fails s =
    if not s.prod_open
    then some (record s { child_pc = ChildPc.faulted })
    else if fails
    then some (record s { child_pc = ChildPc.exited })
    else some (record s { sem_prod = s.sem_prod + 1; child_pc = ChildPc.exited })
child_step ChildPc.exited fails s = none
child_step ChildPc.threw fails s = none
child_step ChildPc.faulted fails s = none

pub step : Turn → State → Option State
unfolding parent_step child_step
step (parent fails) s = parent_step s.parent_pc fails s
step (child fails) s = child_step s.child_pc fails s

-- The next call of the process that moves is one on a semaphore.
abbrev pub calls_semaphore : Turn → State → Bool
calls_semaphore (parent fails) s = elim s.parent_pc [
  | ParentPc.sem_wait ↦ true
  | ParentPc.sem_post ↦ true
  | _ ↦ false
]
calls_semaphore (child fails) s = elim s.child_pc [
  | ChildPc.sem_wait ↦ true
  | ChildPc.sem_post ↦ true
  | _ ↦ false
]

abbrev pub succeeds : Turn → Turn
succeeds (parent fails) = parent false
succeeds (child fails) = child false

-- A turn in which no call on a semaphore fails.
pub semaphore_step : Turn → State → Option State
unfolding step
semaphore_step t s = step (if calls_semaphore t s then succeeds t else t) s
