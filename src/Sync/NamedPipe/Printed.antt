-- ===== src/Sync/NamedPipe/Printed.antt =====
-- Chapter 3/cpp_and_named_pipe.cpp: what the processes print, their errors included.
use c_programming_for_linux.Prelude.{
  ◌≡◌, refl, ◌⊎◌, Bool, true, false, List, none, some, arith, run, run_inv,
}
use c_programming_for_linux.Sync.NamedPipe.{
  Turn, parent, child, ParentPc, ChildPc, State, main_started, step, message, response_msg,
}
use c_programming_for_linux.Sync.NamedPipe.Exchange.{texts}

-- Before the fork has succeeded.
abbrev is_alone : ParentPc → Bool
is_alone ParentPc.checking = true
is_alone ParentPc.making = true
is_alone ParentPc.forking = true
is_alone ParentPc.exited = true
is_alone pc = false

-- A child that has not yet printed what it reads.
abbrev is_unread : ChildPc → Bool
is_unread ChildPc.absent = true
is_unread ChildPc.testing = true
is_unread ChildPc.opening = true
is_unread pc = false

record Inv (s : State) : Type 0 where
  refused :
      s.open_failed ≡ true
      → (s.child_printed ≡ none)
        × ((s.child_pc ≡ ChildPc.removing) ⊎ (s.child_pc ≡ ChildPc.finished))
  unread : is_unread s.child_pc ≡ true → (s.child_printed ≡ none) × (s.open_failed ≡ false)
  alone : is_alone s.parent_pc ≡ true → (s.child_pc ≡ ChildPc.absent) × (s.parent_printed ≡ none)
  unforked : s.fork_failed ≡ true → s.parent_pc ≡ ParentPc.exited

parent-Inv : (fails : Bool) (s s' : State) → Inv s → step (parent fails) s ≡ some s' → Inv s'
unfolding step
parent-Inv fails s s' v e = ground arith

child-Inv : (fails : Bool) (s s' : State) → Inv s → step (child fails) s ≡ some s' → Inv s'
unfolding step
child-Inv fails s s' v e = ground arith

step-Inv : (t : Turn) (s s' : State) → Inv s → step t s ≡ some s' → Inv s'
step-Inv (parent fails) s s' v e = parent-Inv fails s s' v e
step-Inv (child fails) s s' v e = child-Inv fails s s' v e

run-Inv : (exists : Bool) (ts : List Turn) → Inv (run step ts (main_started exists))
run-Inv exists ts = run_inv step Inv step-Inv ts (main_started exists) (record {
  refused = λ e. ground (arith, e);
  unread = λ e. (refl, refl);
  alone = λ e. (refl, refl);
  unforked = λ e. ground (arith, e);
})

-- Under every schedule, whatever calls fail: the child prints nothing, or that it cannot open the
-- pipe, or the parent's message whole; the parent prints nothing, or that the fork has failed, when
-- neither process prints anything else, or the response, but only after the child has printed the
-- message, or its own message, but only if the child has not printed it.
pub texts_exchanged :
    (exists : Bool) (ts : List Turn)
    → let s = run step ts (main_started exists) in
      ((s.child_printed ≡ none) ⊎ (s.child_printed ≡ some message))
      × (s.open_failed ≡ true → s.child_printed ≡ none)
      × ((s.parent_printed ≡ none)
          ⊎ ((s.parent_printed ≡ some message) × (s.child_printed ≡ none))
          ⊎ ((s.parent_printed ≡ some response_msg) × (s.child_printed ≡ some message)))
      × (s.fork_failed ≡ true
          → (s.parent_printed ≡ none) × (s.child_printed ≡ none) × (s.open_failed ≡ false))
texts_exchanged exists ts =
    let v = run-Inv exists ts in
    let (child_text, parent_text) = texts exists ts in
    (
      child_text,
      λ e. ground (arith, v.refused, e),
      parent_text,
      λ e. ground (arith, e, v.unforked, v.alone, v.unread),
    )
