-- ===== src/Sync/FifoExchange/Texts.antt =====
-- Chapter 3/named_pipe_example.c: who reads which message, if no call fails.
use c_programming_for_linux.Prelude.{
  ℕ, ◌≡◌, refl, ◌⊎◌, inl, inr, Bool, true, false, List, [], none, some, arith, run, run_inv, ap,
  length, subst, sym, ltb,
}
use c_programming_for_linux.Ipc.Buffer.{codes, fill}
use c_programming_for_linux.Sync.FifoExchange.{
  Process, parent, child, ParentPc, ChildPc, State, message, response_msg, main_started, read_fifo,
  parent_step, child_step, step, reliable_step,
}
use c_programming_for_linux.Sync.FifoExchange.Contents.{
  sent, answer, held, reads, holds, has_written, parent_took, child_took, has_answered, ParentTook,
  ParentFits, ChildFits, Inv,
}

parent_read-Inv :
    (s s' : State) (bytes : List ℕ)
    → s.parent_pc ≡ ParentPc.reading
    → Inv s
    → ParentTook s.child_pc (held bytes)
    → read_fifo s.fifo ≡ some (bytes, [])
    → record s {
      parent_message = fill s.parent_message bytes;
      fifo = [];
      parent_pc = ParentPc.printing;
    }
      ≡ s'
    → Inv s'
parent_read-Inv s s' bytes at v took there same =
    let fits : ParentFits ParentPc.reading s = subst (λ pc. ParentFits pc s) at v.parent_fits in
    subst Inv same (record {
      parent_fits = (subst (λ b. ParentTook s.child_pc (fill b bytes)) (sym fits.0) took, fits.1);
      made = λ e. v.made (λ f. ground (arith, at, f));
      born = v.born;
      child_fits = v.child_fits;
      fifo_fits = refl;
    })

parent_reads :
    (s : State)
    → s.parent_pc ≡ ParentPc.reading
    → Inv s
    → (s.fifo ≡ [])
      ⊎ ((s.fifo ≡ sent) × (child_took s.child_pc ≡ false))
      ⊎ ((s.fifo ≡ answer) × (has_answered s.child_pc ≡ true))
parent_reads s at v = ground (arith, at, v.fifo_fits)

child_reads :
    (s : State)
    → s.child_pc ≡ ChildPc.reading
    → Inv s
    → (s.fifo ≡ [])
      ⊎ ((s.fifo ≡ sent) × (has_written s.parent_pc ≡ true) × (parent_took s.parent_pc ≡ false))
child_reads s at v = ground (arith, at, v.fifo_fits)

length-sent : length sent ≡ 35
unfolding message codes
length-sent = refl

-- Before it reads, the parent does not depend on the child's place.
waiting-ParentFits :
    (pc : ParentPc) (s s' : State)
    → parent_took pc ≡ false
    → ParentFits pc s
    → s'.parent_message ≡ s.parent_message
    → s'.parent_printed ≡ s.parent_printed
    → s'.parent_open ≡ s.parent_open
    → ParentFits pc s'
waiting-ParentFits pc s s' h fits e0 e1 e2 = ground arith

child_read-Inv :
    (s s' : State)
    → s.child_pc ≡ ChildPc.reading
    → Inv s
    → has_written s.parent_pc ≡ true
    → parent_took s.parent_pc ≡ false
    → record s {
      child_message = fill s.child_message sent;
      fifo = [];
      received = ltb 0 (length sent);
      child_pc = ChildPc.testing;
    }
      ≡ s'
    → Inv s'
child_read-Inv s s' at v wrote untaken same =
    let fits : ChildFits ChildPc.reading s.child_message s.received s.child_printed =
      subst (λ pc. ChildFits pc s.child_message s.received s.child_printed) at v.child_fits in
    let s1 : State = record s {
      child_message = fill s.child_message sent;
      fifo = [];
      received = ltb 0 (length sent);
      child_pc = ChildPc.testing;
    } in
    subst Inv same (record {
      parent_fits = waiting-ParentFits s.parent_pc s s1 untaken v.parent_fits refl refl refl;
      made = v.made;
      born = λ e. v.born (λ f. ground (arith, at, f));
      child_fits = (ap (λ b. fill b sent) fits.0, ground (arith, length-sent), fits.1);
      fifo_fits = ground (arith, wrote, untaken);
    })

parent-Inv :
    (pc : ParentPc) (s s' : State)
    → s.parent_pc ≡ pc
    → Inv s
    → parent_step false pc s ≡ some s'
    → Inv s'
unfolding parent_step
parent-Inv ParentPc.making s s' at v e = ground arith
parent-Inv ParentPc.forking s s' at v e = ground arith
parent-Inv ParentPc.opening s s' at v e = ground arith
parent-Inv ParentPc.writing s s' at v e = ground arith
parent-Inv ParentPc.clearing s s' at v e = ground (arith, holds.0)
parent-Inv ParentPc.reading s s' at v e =
    let opened : s.parent_open ≡ true = ground (arith, at, v.parent_fits) in
    elim (parent_reads s at v) [
      | inl empty ↦ absurd (ground (arith, opened, empty, reads.0, e))
      | inr (inl (full, untaken)) ↦
          let there : read_fifo s.fifo ≡ some (sent, []) = rw full reads.1 in
          parent_read-Inv s s' sent at v (inl (refl, untaken)) there
            (ground (arith, opened, there, e))
      | inr (inr (full, answered)) ↦
          let there : read_fifo s.fifo ≡ some (answer, []) = rw full reads.2 in
          parent_read-Inv s s' answer at v (inr (refl, answered)) there
            (ground (arith, opened, there, e))
    ]
parent-Inv ParentPc.printing s s' at v e =
    ground (arith, holds.1, holds.2, holds.3, holds.4, holds.5, holds.6)
parent-Inv ParentPc.closing s s' at v e = ground arith
parent-Inv ParentPc.finished s s' at v e = ground arith
parent-Inv ParentPc.faulted s s' at v e = ground arith

child-Inv :
    (pc : ChildPc) (s s' : State)
    → s.child_pc ≡ pc
    → Inv s
    → child_step false pc s ≡ some s'
    → Inv s'
unfolding child_step
child-Inv ChildPc.absent s s' at v e = ground arith
child-Inv ChildPc.opening s s' at v e = ground arith
child-Inv ChildPc.reading s s' at v e = elim (child_reads s at v) [
  | inl empty ↦ absurd (ground (arith, empty, reads.0, e))
  | inr (full, wrote, untaken) ↦
      let there : read_fifo s.fifo ≡ some (sent, []) = rw full reads.1 in
      child_read-Inv s s' at v wrote untaken (ground (arith, there, e))
]
child-Inv ChildPc.testing s s' at v e = ground arith
child-Inv ChildPc.printing s s' at v e = ground (arith, holds.1, holds.3, holds.5)
child-Inv ChildPc.writing s s' at v e = ground arith
child-Inv ChildPc.closing s s' at v e = ground arith
child-Inv ChildPc.finished s s' at v e = ground arith
child-Inv ChildPc.faulted s s' at v e = ground arith

step-Inv : (p : Process) (s s' : State) → Inv s → reliable_step p s ≡ some s' → Inv s'
unfolding reliable_step step
step-Inv parent s s' v e = parent-Inv s.parent_pc s s' refl v e
step-Inv child s s' v e = child-Inv s.child_pc s s' refl v e

main_started-Inv : (exists : Bool) → Inv (main_started exists)
unfolding main_started
main_started-Inv exists = record {
  made = λ e. absurd (e refl);
  born = λ e. absurd (e refl);
  parent_fits = (refl, refl);
  child_fits = (refl, refl);
  fifo_fits = (refl, refl);
}

-- Whether an earlier run has left the FIFO or not, under every schedule in which no call fails: the child prints nothing or the parent's message; the
-- parent prints nothing, its own message, but only if the child has printed nothing, or the response,
-- but only after the child has printed the message.
pub fifo_texts :
    (exists : Bool) (ps : List Process)
    → let s = run reliable_step ps (main_started exists) in
      ((s.child_printed ≡ none) ⊎ (s.child_printed ≡ some message))
      × ((s.parent_printed ≡ none)
          ⊎ ((s.parent_printed ≡ some message) × (s.child_printed ≡ none))
          ⊎ ((s.parent_printed ≡ some response_msg) × (s.child_printed ≡ some message)))
fifo_texts exists ps =
    let s = run reliable_step ps (main_started exists) in
    let v : Inv s =
      run_inv reliable_step Inv step-Inv ps (main_started exists) (main_started-Inv exists) in
    (ground (arith, v.child_fits), ground (arith, v.parent_fits, v.child_fits))
