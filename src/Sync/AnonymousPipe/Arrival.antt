-- ===== src/Sync/AnonymousPipe/Arrival.antt =====
-- Chapter 3/anonymous_pipe_example.cpp: what the child prints if no call fails.
use c_programming_for_linux.Prelude.{
  ℕ, ◌+◌, ◌≡◌, refl, ◌⊎◌, inl, inr, Bool, true, false, List, [], none, some, arith, run, run_inv,
  Bool-cases, subst, ap,
}
use c_programming_for_linux.Ipc.Buffer.{array, codes, fill, c_str}
use c_programming_for_linux.Sync.AnonymousPipe.{
  Process, parent, child, ParentPc, ChildPc, State, main_started, buff_len, msg, sent, read_pipe,
  parent_step, child_step, step, either, reliable_step,
}

abbrev fresh : List ℕ
fresh = array (buff_len + 1)

abbrev has_written : ParentPc → Bool
has_written ParentPc.exiting = true
has_written ParentPc.finished = true
has_written pc = false

abbrev ParentFits : State → ParentPc → Type 0
ParentFits s ParentPc.piping = s.child_pc ≡ ChildPc.absent
ParentFits s ParentPc.forking =
    (s.child_pc ≡ ChildPc.absent) × (s.parent_in ≡ true) × (s.parent_out ≡ true)
ParentFits s ParentPc.closing = (s.child_in ≡ true) × (s.parent_out ≡ true)
ParentFits s ParentPc.writing = (s.child_in ≡ true) × (s.parent_out ≡ true)
ParentFits s ParentPc.exiting = Unit
ParentFits s ParentPc.finished = Unit
ParentFits s _ = false ≡ true

abbrev BeforeRead : State → Type 0
BeforeRead s =
    (s.printed ≡ none) × (s.buff ≡ fresh) × (has_written s.parent_pc ≡ true → s.pipe ≡ sent)

abbrev ChildFits : State → ChildPc → Type 0
ChildFits s ChildPc.absent = BeforeRead s
ChildFits s ChildPc.closing = BeforeRead s
ChildFits s ChildPc.reading = BeforeRead s
ChildFits s ChildPc.printing =
    (s.printed ≡ none) × (s.buff ≡ fill fresh sent) × (has_written s.parent_pc ≡ true)
ChildFits s _ = (s.printed ≡ some msg) × (has_written s.parent_pc ≡ true)

record Inv (s : State) : Type 0 where
  unwritten : has_written s.parent_pc ≡ false → s.pipe ≡ []
  parent_fits : ParentFits s s.parent_pc
  child_fits : ChildFits s s.child_pc

-- The message fits into the pipe's reader whole.
read_pipe_lem : (writers : Bool) → read_pipe writers sent ≡ some (sent, [])
unfolding read_pipe sent msg codes
read_pipe_lem writers = refl

buff_holds : c_str (fill fresh sent) ≡ msg
unfolding array fill c_str sent msg codes
buff_holds = refl

parent-Inv :
    (pc : ParentPc) (s s' : State)
    → s.parent_pc ≡ pc
    → Inv s
    → parent_step false pc s ≡ some s'
    → Inv s'
unfolding parent_step
parent-Inv ParentPc.piping s s' at v e = ground arith
parent-Inv ParentPc.forking s s' at v e = ground arith
parent-Inv ParentPc.closing s s' at v e = ground arith
parent-Inv ParentPc.writing s s' at v e = ground arith
parent-Inv ParentPc.exiting s s' at v e = ground arith
parent-Inv ParentPc.finished s s' at v e = ground arith
parent-Inv ParentPc.failed s s' at v e = ground arith
parent-Inv ParentPc.killed s s' at v e = ground arith

read_pipe_waits : read_pipe true [] ≡ none
unfolding read_pipe
read_pipe_waits = refl

pipe_in_use :
    (s : State)
    → Inv s
    → s.child_pc ≡ ChildPc.reading
    → has_written s.parent_pc ≡ false
    → (s.pipe ≡ []) × (either s.parent_out s.child_out ≡ true)
pipe_in_use s v at h = ground (arith, at, h, v.unwritten, v.parent_fits)

what_is_read :
    (s : State)
    → Inv s
    → s.child_pc ≡ ChildPc.reading
    → (read_pipe (either s.parent_out s.child_out) s.pipe ≡ none)
      ⊎ ((has_written s.parent_pc ≡ true)
          × (read_pipe (either s.parent_out s.child_out) s.pipe ≡ some (sent, [])))
what_is_read s v at = elim (Bool-cases (has_written s.parent_pc)) [
  | inl h ↦
      let full : s.pipe ≡ sent = ground (arith, at, h, v.child_fits) in
      inr (h, rw full (read_pipe_lem (either s.parent_out s.child_out)))
  | inr h ↦ let (empty, in_use) = pipe_in_use s v at h in inl (rw empty (rw in_use read_pipe_waits))
]

written-ParentFits : (s : State) (pc : ParentPc) → has_written pc ≡ true → ParentFits s pc
written-ParentFits s ParentPc.exiting h = tt
written-ParentFits s ParentPc.finished h = tt
written-ParentFits s ParentPc.piping h = absurd (ground (arith, h))
written-ParentFits s ParentPc.forking h = absurd (ground (arith, h))
written-ParentFits s ParentPc.closing h = absurd (ground (arith, h))
written-ParentFits s ParentPc.writing h = absurd (ground (arith, h))
written-ParentFits s ParentPc.failed h = absurd (ground (arith, h))
written-ParentFits s ParentPc.killed h = absurd (ground (arith, h))

child-Inv :
    (pc : ChildPc) (s s' : State)
    → s.child_pc ≡ pc
    → Inv s
    → child_step false pc s ≡ some s'
    → Inv s'
unfolding child_step
child-Inv ChildPc.absent s s' at v e = ground arith
child-Inv ChildPc.closing s s' at v e = ground arith
child-Inv ChildPc.reading s s' at v e = elim (what_is_read s v at) [
  | inl waits ↦ absurd (ground (arith, waits, e))
  | inr (h, reads) ↦
      let s1 : State = record s {
        buff = fill s.buff sent;
        pipe = [];
        child_pc = ChildPc.printing;
      } in
      let same : s1 ≡ s' = ground (arith, reads, e) in
      let fresh_buff : BeforeRead s = ground (arith, at, v.child_fits) in
      subst Inv same (record {
        unwritten = λ h'. refl;
        parent_fits = written-ParentFits s1 s.parent_pc h;
        child_fits = (fresh_buff.0, ap (λ b. fill b sent) fresh_buff.1, h);
      })
]
child-Inv ChildPc.printing s s' at v e = ground (arith, buff_holds)
child-Inv ChildPc.exiting s s' at v e = ground arith
child-Inv ChildPc.finished s s' at v e = ground arith

step-Inv : (p : Process) (s s' : State) → Inv s → reliable_step p s ≡ some s' → Inv s'
unfolding reliable_step step
step-Inv parent s s' v e = parent-Inv s.parent_pc s s' refl v e
step-Inv child s s' v e = child-Inv s.child_pc s s' refl v e

main_started-Inv : Inv main_started
main_started-Inv = record {
  unwritten = λ h. refl;
  parent_fits = refl;
  child_fits = (refl, refl, λ h. absurd (ground (arith, h)));
}

-- Under every schedule in which no call fails, the child prints nothing or the message, and a child
-- that has ended has printed the message.
pub piped_message_arrives :
    (ps : List Process)
    → let s = run reliable_step ps main_started in
      ((s.printed ≡ none) ⊎ (s.printed ≡ some msg))
      × (s.child_pc ≡ ChildPc.finished → s.printed ≡ some msg)
piped_message_arrives ps =
    let s = run reliable_step ps main_started in
    let v = run_inv reliable_step Inv step-Inv ps main_started main_started-Inv in
    (ground (arith, v.child_fits), λ e. ground (arith, e, v.child_fits))
