-- ===== src/Sync/SharedRegion/Handover.antt =====
-- Chapter 7/shm_example.cpp: what the child reads, and which runs end.
use c_programming_for_linux.Prelude.{
  ℕ, zero, suc, ◌+◌, ◌≤◌, ◌≡◌, ◌≢◌, refl, ◌⊎◌, ◌↔◌, inl, inr, Bool-cases, List, [], ◌∷◌, none, some,
  Bool, true, false, arith, run, run_inv, length, take,
}
use c_programming_for_linux.Ipc.Buffer.{array, fill, c_str, length-array, length-fill}
use c_programming_for_linux.Sync.SharedRegion.{
  parent, child, Turn, ParentPc, ChildPc, State, main_started, step, semaphore_step,
  calls_semaphore, shm_size, produced_data, resize, has_ended, child_step,
}

-- The region once the parent has written.
abbrev pub written : List ℕ
written = fill (array shm_size) produced_data

take-all : (bytes : List ℕ) (n : ℕ) → length bytes ≡ n → take n bytes ≡ bytes
take-all [] n e = ground arith
take-all (b ∷ bs) zero e = absurd (omega (arith, e))
take-all (b ∷ bs) (suc n) e = rw (take-all bs n (omega (arith, e))) refl

length-data : length produced_data ≡ 23
unfolding produced_data
length-data = refl

length-written : length written ≡ 1024
length-written = omega (
  arith,
  length-data,
  length-array shm_size,
  length-fill (array shm_size) produced_data (omega (arith, length-data, length-array shm_size)),
)

c_str-written : c_str written ≡ produced_data
unfolding produced_data c_str fill array
c_str-written = refl

resize-empty : resize [] shm_size ≡ array shm_size
unfolding resize
resize-empty = take-all (array shm_size) shm_size (length-array shm_size)

take-written : take shm_size written ≡ written
take-written = take-all written shm_size length-written

-- Where the parent stands: before it has made the region, before it has written, before it has
-- posted, after it.
abbrev pub is_unopened : ParentPc → Bool
is_unopened ParentPc.fork = true
is_unopened ParentPc.shm_open = true
is_unopened _ = false

abbrev pub is_sized : ParentPc → Bool
is_sized ParentPc.mmap = true
is_sized ParentPc.sem_wait = true
is_sized ParentPc.memcpy = true
is_sized _ = false

abbrev pub is_posted : ParentPc → Bool
is_posted ParentPc.waitpid = true
is_posted ParentPc.munmap = true
is_posted ParentPc.shm_unlink = true
is_posted ParentPc.exited = true
is_posted _ = false

abbrev pub needs_wait : ParentPc → Bool
needs_wait ParentPc.ftruncate = true
needs_wait ParentPc.mmap = true
needs_wait ParentPc.sem_wait = true
needs_wait pc = is_unopened pc

abbrev pub has_waited_child : ParentPc → Bool
has_waited_child ParentPc.munmap = true
has_waited_child ParentPc.shm_unlink = true
has_waited_child ParentPc.exited = true
has_waited_child _ = false

-- How many units of `sem_cons` the child has taken.
abbrev pub taken : ChildPc → ℕ
taken ChildPc.memcpy = 1
taken ChildPc.print = 1
taken ChildPc.sem_post = 1
taken ChildPc.exited = 1
taken ChildPc.faulted = 1
taken _ = 0

abbrev pub has_read : ChildPc → Bool
has_read ChildPc.sem_post = true
has_read ChildPc.exited = true
has_read _ = false

pub record Inv (s : State) : Type 0 where
  pub unforked : s.parent_pc ≡ ParentPc.fork → s.child_pc ≡ ChildPc.absent
  pub forked :
      s.child_pc ≡ ChildPc.absent → (s.parent_pc ≡ ParentPc.fork) ⊎ (s.parent_pc ≡ ParentPc.threw)
  pub unlinked : is_unopened s.parent_pc ≡ true → s.linked ≡ false
  pub created : s.parent_pc ≡ ParentPc.ftruncate → s.region ≡ []
  pub sized : is_sized s.parent_pc ≡ true → s.region ≡ array shm_size
  pub filled : s.parent_pc ≡ ParentPc.sem_post → s.region ≡ written
  pub granted : 1 ≤ s.sem_cons + taken s.child_pc → s.region ≡ written
  pub unposted :
      is_posted s.parent_pc ≡ false
      → s.parent_pc ≢ ParentPc.threw
      → s.sem_cons + taken s.child_pc ≡ 0
  pub posted : is_posted s.parent_pc ≡ true → s.sem_cons + taken s.child_pc ≡ 1
  pub may_write : needs_wait s.parent_pc ≡ true → 1 ≤ s.sem_prod
  pub waited : has_waited_child s.parent_pc ≡ true → has_ended s.child_pc ≡ true
  pub read : s.child_pc ≡ ChildPc.print → s.buffer ≡ written
  pub nothing : has_read s.child_pc ≡ false → s.consumed ≡ none
  pub message : has_read s.child_pc ≡ true → s.consumed ≡ some produced_data
  pub valid : s.child_pc ≢ ChildPc.faulted
  pub parent_valid : s.parent_pc ≢ ParentPc.faulted
  pub opened : (s.prod_open ≡ true) × (s.cons_open ≡ true)
  pub told : (s.child_error ≡ none) ⊎ (s.child_pc ≡ ChildPc.threw)
  pub told_why : s.child_pc ≡ ChildPc.threw → s.child_error ≢ none

parent-Inv :
    (fails : Bool) (s s' : State) → Inv s → semaphore_step (parent fails) s ≡ some s' → Inv s'
unfolding semaphore_step step has_ended
parent-Inv fails s s' v e = ground (arith, resize-empty)

-- The two steps of the child that use what it has read.
memcpy_step :
    (fails : Bool) (s : State)
    → s.region ≡ written
    → child_step ChildPc.memcpy fails s
      ≡ some (record s { buffer = written; child_pc = ChildPc.print })
unfolding child_step
memcpy_step fails s e = rw e (ground (arith, length-written, take-written))

print_step :
    (fails : Bool) (s : State)
    → s.buffer ≡ written
    → child_step ChildPc.print fails s
      ≡ some (record s { consumed = some produced_data; child_pc = ChildPc.sem_post })
unfolding child_step
print_step fails s e = rw (e, c_str-written) (ground (arith, length-written, length-data))

abbrev is_semaphore_call : ChildPc → Bool
is_semaphore_call ChildPc.sem_wait = true
is_semaphore_call ChildPc.sem_post = true
is_semaphore_call pc = false

child_at-Inv :
    (pc : ChildPc) (fails : Bool) (s s' : State)
    → s.child_pc ≡ pc
    → (is_semaphore_call pc ≡ true → fails ≡ false)
    → Inv s
    → child_step pc fails s ≡ some s'
    → Inv s'
unfolding child_step has_ended
child_at-Inv ChildPc.absent fails s s' at works v e = ground arith
child_at-Inv ChildPc.shm_open fails s s' at works v e = ground arith
child_at-Inv ChildPc.mmap fails s s' at works v e = ground arith
child_at-Inv ChildPc.sem_wait fails s s' at works v e = ground arith
child_at-Inv ChildPc.memcpy fails s s' at works v e =
    let moved = memcpy_step fails s (v.granted (ground (arith, at))) in ground (arith, moved)
child_at-Inv ChildPc.print fails s s' at works v e =
    let moved = print_step fails s (v.read at) in ground (arith, moved)
child_at-Inv ChildPc.sem_post fails s s' at works v e = ground arith
child_at-Inv ChildPc.exited fails s s' at works v e = ground arith
child_at-Inv ChildPc.threw fails s s' at works v e = ground arith
child_at-Inv ChildPc.faulted fails s s' at works v e = ground arith

child-Inv :
    (fails : Bool) (s s' : State) → Inv s → semaphore_step (child fails) s ≡ some s' → Inv s'
unfolding semaphore_step step
child-Inv fails s s' v e = elim (Bool-cases (calls_semaphore (child fails) s)) [
  | inl h ↦ child_at-Inv s.child_pc false s s' refl (λ x. refl) v (ground (arith, e, h))
  | inr h ↦
      child_at-Inv s.child_pc fails s s' refl (λ x. ground (arith, h, x)) v (ground (arith, e, h))
]

pub step-Inv : (t : Turn) (s s' : State) → Inv s → semaphore_step t s ≡ some s' → Inv s'
step-Inv (parent fails) s s' v e = parent-Inv fails s s' v e
step-Inv (child fails) s s' v e = child-Inv fails s s' v e

pub run-Inv :
    (region : List ℕ) (sem_prod : ℕ) (ts : List Turn)
    → Inv (run semaphore_step ts (main_started false region (some sem_prod) (some 0) false))
run-Inv region sem_prod ts =
    run_inv semaphore_step Inv step-Inv ts
      (main_started false region (some sem_prod) (some 0) false)
      (record {
        unforked = λ e. refl;
        forked = λ e. inl refl;
        unlinked = λ e. refl;
        created = λ e. ground (arith, e);
        sized = λ e. ground (arith, e);
        filled = λ e. ground (arith, e);
        granted = λ e. ground (arith, e);
        unposted = λ e n. refl;
        posted = λ e. ground (arith, e);
        may_write = λ e. omega arith;
        waited = λ e. ground (arith, e);
        read = λ e. ground (arith, e);
        nothing = λ e. refl;
        message = λ e. ground (arith, e);
        valid = λ e. ground (arith, e);
        parent_valid = λ e. ground (arith, e);
        opened = (refl, refl);
        told = inl refl;
        told_why = λ e. ground (arith, e);
      })

-- Where no region and no unit of the consumer's semaphore is left from earlier, then under every
-- schedule in which no call on a semaphore fails, whatever other calls fail, the child makes no access
-- out of bounds; what it has printed as consumed is nothing or the parent's text, and it is that text
-- once the child has exited; it has printed an error exactly if it has ended with an exception.
pub child_prints_message :
    (region : List ℕ) (sem_prod : ℕ) (ts : List Turn)
    → let s = run semaphore_step ts (main_started false region (some sem_prod) (some 0) false) in
      (s.child_pc ≢ ChildPc.faulted)
      × ((s.consumed ≡ none) ⊎ (s.consumed ≡ some produced_data))
      × (s.child_pc ≡ ChildPc.exited → s.consumed ≡ some produced_data)
      × ((s.child_error ≢ none) ↔ (s.child_pc ≡ ChildPc.threw))
child_prints_message region sem_prod ts =
    let v = run-Inv region sem_prod ts in
    (
      v.valid,
      ground (arith, v.nothing, v.message),
      λ e. v.message (ground (arith, e)),
      (λ e. ground (arith, e, v.told), v.told_why),
    )
