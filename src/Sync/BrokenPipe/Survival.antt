-- ===== src/Sync/BrokenPipe/Survival.antt =====
-- Chapter 3/anonymous_pipe_sigpipe_example.c: the parent survives its write.
use c_programming_for_linux.Prelude.{
  ℕ, suc, ◌+◌, ◌<◌, ◌≡◌, ◌≢◌, refl, ◌⊎◌, inl, inr, Bool, true, false, List, [], none, some, arith,
  run, run_inv, run_completes, Option-cases, ◌==◌,
}
use c_programming_for_linux.Sync.BrokenPipe.{
  Process, parent, child, ParentPc, ChildPc, State, main_started, sent, write, parent_step,
  child_step, step,
}

-- The pipe is as full as the parent's place says, and the signal is ignored where it may come.
abbrev ParentFits : ParentPc → State → Type 0
ParentFits ParentPc.writing s = (s.pipe ≡ []) × (s.ignores ≡ true)
ParentFits ParentPc.closing s = (s.pipe ≡ []) × (s.ignores ≡ true)
ParentFits ParentPc.finished s = (s.pipe ≡ []) ⊎ (s.pipe ≡ sent)
ParentFits ParentPc.killed s = false ≡ true
ParentFits pc s = s.pipe ≡ []

abbrev before_fork : ParentPc → Bool
before_fork ParentPc.piping = true
before_fork ParentPc.forking = true
before_fork pc = false

record Inv (s : State) : Type 0 where
  fits : ParentFits s.parent_pc s
  only_child : before_fork s.parent_pc ≡ true → s.child_pc ≡ ChildPc.absent

parent-Inv :
    (fails : Bool) (pc : ParentPc) (s s' : State)
    → s.parent_pc ≡ pc
    → Inv s
    → parent_step fails pc s ≡ some s'
    → Inv s'
unfolding parent_step write
parent-Inv fails ParentPc.piping s s' at v e = ground arith
parent-Inv fails ParentPc.forking s s' at v e = ground arith
parent-Inv fails ParentPc.ignoring s s' at v e = ground arith
parent-Inv fails ParentPc.closing s s' at v e = ground arith
parent-Inv fails ParentPc.writing s s' at v e = ground arith
parent-Inv fails ParentPc.finished s s' at v e = ground arith
parent-Inv fails ParentPc.failed s s' at v e = ground arith
parent-Inv fails ParentPc.killed s s' at v e = ground arith

child-Inv :
    (pc : ChildPc) (s s' : State) → s.child_pc ≡ pc → Inv s → child_step pc s ≡ some s' → Inv s'
unfolding child_step
child-Inv ChildPc.absent s s' at v e = ground arith
child-Inv ChildPc.closing_out s s' at v e = ground arith
child-Inv ChildPc.closing_in s s' at v e = ground arith
child-Inv ChildPc.finished s s' at v e = ground arith

step-Inv : (t : Process × Bool) (s s' : State) → Inv s → step t s ≡ some s' → Inv s'
unfolding step
step-Inv (parent, fails) s s' v e = parent-Inv fails s.parent_pc s s' refl v e
step-Inv (child, fails) s s' v e = child-Inv s.child_pc s s' refl v e

abbrev parent_left : ParentPc → ℕ
parent_left ParentPc.piping = 20
parent_left ParentPc.forking = 10
parent_left ParentPc.ignoring = 3
parent_left ParentPc.closing = 2
parent_left ParentPc.writing = 1
parent_left pc = 0

abbrev child_left : ChildPc → ℕ
child_left ChildPc.closing_out = 2
child_left ChildPc.closing_in = 1
child_left pc = 0

abbrev work_left : State → ℕ
work_left s = parent_left s.parent_pc + child_left s.child_pc

abbrev pub ended : State → Bool
ended s = work_left s == 0

step-lowers :
    (t : Process × Bool) (s s' : State) → Inv s → step t s ≡ some s' → work_left s' < work_left s
unfolding step parent_step child_step write
step-lowers (parent, fails) s s' v e = ground arith
step-lowers (child, fails) s s' v e = ground arith

stuck_ended :
    (s : State) → step (parent, false) s ≡ none → step (child, false) s ≡ none → ended s ≡ true
unfolding step parent_step child_step
stuck_ended s e0 e1 = ground arith

some_moves : (s : State) → Inv s → ended s ≡ false → (t : Process × Bool) × (step t s ≢ none)
some_moves s v h = elim (Option-cases (step (parent, false) s)) [
  | inr (s', e) ↦ ((parent, false), λ stuck. ground (arith, e, stuck))
  | inl e0 ↦ ((child, false), λ e1. ground (arith, h, stuck_ended s e0 e1))
]

-- Whatever calls fail, under every schedule the parent is not killed by its write, and the pipe is
-- empty or holds the message; from every state that a schedule leads to, some further schedule brings
-- both processes to their ends.
pub parent_survives :
    (ts : List (Process × Bool))
    → let s = run step ts main_started in
      (s.parent_pc ≢ ParentPc.killed)
      × ((s.pipe ≡ []) ⊎ (s.pipe ≡ sent))
      × ((us : List (Process × Bool)) × (ended (run step us s) ≡ true))
parent_survives ts =
    let s = run step ts main_started in
    let v : Inv s =
      run_inv step Inv step-Inv ts main_started (record { fits = refl; only_child = λ e. refl }) in
    (
      λ e. ground (arith, e, v.fits),
      ground (arith, v.fits),
      run_completes step Inv ended work_left step-Inv step-lowers some_moves (suc (work_left s)) s
          (omega arith) v,
    )
