-- ===== src/Sync/AnonymousPipe/Ends.antt =====
-- Chapter 3/anonymous_pipe_example.cpp: neither process waits for ever, whatever calls fail.
use c_programming_for_linux.Prelude.{
  ℕ, suc, ◌+◌, ◌<◌, ◌≡◌, ◌≢◌, refl, inl, inr, Bool, true, false, List, none, some, arith, run,
  run_inv, run_completes, Option-cases, if◌then◌else◌,
}
use c_programming_for_linux.Sync.AnonymousPipe.{
  Process, parent, child, ParentPc, ChildPc, State, main_started, read_pipe, parent_step,
  child_step, step,
}

abbrev parent_ended : ParentPc → Bool
parent_ended ParentPc.finished = true
parent_ended ParentPc.failed = true
parent_ended ParentPc.killed = true
parent_ended pc = false

abbrev before_fork : ParentPc → Bool
before_fork ParentPc.piping = true
before_fork ParentPc.forking = true
before_fork pc = false

abbrev child_ended : ChildPc → Bool
child_ended ChildPc.absent = true
child_ended ChildPc.finished = true
child_ended pc = false

abbrev pub ended : State → Bool
ended s = let rest = child_ended s.child_pc in if parent_ended s.parent_pc then rest else false

record Inv (s : State) : Type 0 where
  parent_closed : parent_ended s.parent_pc ≡ true → s.parent_out ≡ false
  child_closed : s.child_pc ≡ ChildPc.reading → s.child_out ≡ false
  only_child : before_fork s.parent_pc ≡ true → s.child_pc ≡ ChildPc.absent

parent-Inv :
    (fails : Bool) (pc : ParentPc) (s s' : State)
    → s.parent_pc ≡ pc
    → Inv s
    → parent_step fails pc s ≡ some s'
    → Inv s'
unfolding parent_step
parent-Inv fails ParentPc.piping s s' at v e = ground arith
parent-Inv fails ParentPc.forking s s' at v e = ground arith
parent-Inv fails ParentPc.closing s s' at v e = ground arith
parent-Inv fails ParentPc.writing s s' at v e = ground arith
parent-Inv fails ParentPc.exiting s s' at v e = ground arith
parent-Inv fails ParentPc.finished s s' at v e = ground arith
parent-Inv fails ParentPc.failed s s' at v e = ground arith
parent-Inv fails ParentPc.killed s s' at v e = ground arith

child-Inv :
    (fails : Bool) (pc : ChildPc) (s s' : State)
    → s.child_pc ≡ pc
    → Inv s
    → child_step fails pc s ≡ some s'
    → Inv s'
unfolding child_step
child-Inv fails ChildPc.absent s s' at v e = ground arith
child-Inv fails ChildPc.closing s s' at v e = ground arith
child-Inv fails ChildPc.reading s s' at v e = ground arith
child-Inv fails ChildPc.printing s s' at v e = ground arith
child-Inv fails ChildPc.exiting s s' at v e = ground arith
child-Inv fails ChildPc.finished s s' at v e = ground arith

step-Inv : (t : Process × Bool) (s s' : State) → Inv s → step t s ≡ some s' → Inv s'
unfolding step
step-Inv (parent, fails) s s' v e = parent-Inv fails s.parent_pc s s' refl v e
step-Inv (child, fails) s s' v e = child-Inv fails s.child_pc s s' refl v e

abbrev parent_left : ParentPc → ℕ
parent_left ParentPc.piping = 20
parent_left ParentPc.forking = 12
parent_left ParentPc.closing = 3
parent_left ParentPc.writing = 2
parent_left ParentPc.exiting = 1
parent_left pc = 0

abbrev child_left : ChildPc → ℕ
child_left ChildPc.closing = 4
child_left ChildPc.reading = 3
child_left ChildPc.printing = 2
child_left ChildPc.exiting = 1
child_left pc = 0

abbrev work_left : State → ℕ
work_left s = parent_left s.parent_pc + child_left s.child_pc

parent-lowers :
    (fails : Bool) (pc : ParentPc) (s s' : State)
    → s.parent_pc ≡ pc
    → Inv s
    → parent_step fails pc s ≡ some s'
    → work_left s' < work_left s
unfolding parent_step
parent-lowers fails ParentPc.piping s s' at v e = ground arith
parent-lowers fails ParentPc.forking s s' at v e = ground arith
parent-lowers fails ParentPc.closing s s' at v e = ground arith
parent-lowers fails ParentPc.writing s s' at v e = ground arith
parent-lowers fails ParentPc.exiting s s' at v e = ground arith
parent-lowers fails ParentPc.finished s s' at v e = ground arith
parent-lowers fails ParentPc.failed s s' at v e = ground arith
parent-lowers fails ParentPc.killed s s' at v e = ground arith

child-lowers :
    (fails : Bool) (pc : ChildPc) (s s' : State)
    → s.child_pc ≡ pc
    → child_step fails pc s ≡ some s'
    → work_left s' < work_left s
unfolding child_step
child-lowers fails ChildPc.absent s s' at e = ground arith
child-lowers fails ChildPc.closing s s' at e = ground arith
child-lowers fails ChildPc.reading s s' at e = ground arith
child-lowers fails ChildPc.printing s s' at e = ground arith
child-lowers fails ChildPc.exiting s s' at e = ground arith
child-lowers fails ChildPc.finished s s' at e = ground arith

step-lowers :
    (t : Process × Bool) (s s' : State) → Inv s → step t s ≡ some s' → work_left s' < work_left s
unfolding step
step-lowers (parent, fails) s s' v e = parent-lowers fails s.parent_pc s s' refl v e
step-lowers (child, fails) s s' v e = child-lowers fails s.child_pc s s' refl e

parent-moves : (pc : ParentPc) (s : State) → parent_step false pc s ≡ none → parent_ended pc ≡ true
unfolding parent_step
parent-moves pc s e = ground arith

-- The child's read waits only for a parent that has not ended.
child-moves :
    (pc : ChildPc) (s : State)
    → s.child_pc ≡ pc
    → Inv s
    → s.parent_out ≡ false
    → child_step false pc s ≡ none
    → child_ended pc ≡ true
unfolding child_step read_pipe
child-moves pc s at v closed e = ground arith

some_moves : (s : State) → Inv s → ended s ≡ false → (t : Process × Bool) × (step t s ≢ none)
unfolding step
some_moves s v h = elim (Option-cases (parent_step false s.parent_pc s)) [
  | inr (s', e) ↦ ((parent, false), λ stuck. ground (arith, e, stuck))
  | inl e0 ↦
      let over : parent_ended s.parent_pc ≡ true = parent-moves s.parent_pc s e0 in
      (
        (child, false),
        λ e1. ground (arith, h, over, child-moves s.child_pc s refl v (v.parent_closed over) e1),
      )
]

-- Whatever calls fail, from every state that a schedule leads to, some further schedule brings both
-- processes to their ends.
pub pipe_users_end :
    (ts : List (Process × Bool))
    → (us : List (Process × Bool)) × (ended (run step us (run step ts main_started)) ≡ true)
pipe_users_end ts =
    let s = run step ts main_started in
    run_completes step Inv ended work_left step-Inv step-lowers some_moves (suc (work_left s)) s
      (omega arith)
      (run_inv step Inv step-Inv ts main_started
        (record { parent_closed = λ e. refl; child_closed = λ e. refl; only_child = λ e. refl }))
