-- ===== src/Sync/NamedPipe/Exchange.antt =====
-- Chapter 3/cpp_and_named_pipe.cpp: who reads which message.
use c_programming_for_linux.Prelude.{
  ℕ, ◌≡◌, ◌≢◌, refl, ◌⊎◌, inl, Bool, true, false, List, [], Option, none, some, arith, run, run_inv,
  ap, length,
}
use c_programming_for_linux.Sync.NamedPipe.{
  Turn, parent, child, ParentPc, ChildPc, State, main_started, step, message, response_msg,
  read_pipe,
}

abbrev before_write : ParentPc → Bool
before_write ParentPc.reading = false
before_write ParentPc.printing = false
before_write ParentPc.closing = false
before_write ParentPc.removing = false
before_write ParentPc.finished = false
before_write ParentPc.exited = false
before_write ParentPc.threw = false
before_write _ = true

-- Whether a process has taken something out of the pipe.
abbrev child_took : ChildPc → Option (List ℕ) → Bool
child_took ChildPc.printing printed = true
child_took ChildPc.writing printed = true
child_took ChildPc.closing printed = true
child_took pc none = false
child_took pc (some text) = true

abbrev parent_took : ParentPc → Option (List ℕ) → Bool
parent_took ParentPc.printing printed = true
parent_took pc none = false
parent_took pc (some text) = true

read-pipe_laws :
    (read_pipe [] ≡ none)
    × (read_pipe message ≡ some (message, []))
    × (read_pipe response_msg ≡ some (response_msg, []))
unfolding read_pipe message response_msg
read-pipe_laws = (refl, refl, refl)

texts_differ : (message ≢ []) × (response_msg ≢ []) × (message ≢ response_msg)
unfolding message response_msg
texts_differ = (
  λ e. cc,
  λ e. cc,
  λ e. let lengths : length message ≡ length response_msg = ap length e in omega (arith, lengths),
)

record Inv (s : State) : Type 0 where
  content : (s.pipe ≡ []) ⊎ (s.pipe ≡ message) ⊎ (s.pipe ≡ response_msg)
  unwritten :
      before_write s.parent_pc ≡ true
      → (s.pipe ≡ []) × (child_took s.child_pc s.child_printed ≡ false)
  whole :
      s.pipe ≡ message
      → (child_took s.child_pc s.child_printed ≡ false)
        × (parent_took s.parent_pc s.parent_printed ≡ false)
  answer :
      s.pipe ≡ response_msg
      → (s.child_printed ≡ some message) × (parent_took s.parent_pc s.parent_printed ≡ false)
  holding : s.child_pc ≡ ChildPc.printing → (s.child_text ≡ message) × (s.child_printed ≡ none)
  told :
      (s.child_pc ≡ ChildPc.writing) ⊎ (s.child_pc ≡ ChildPc.closing)
      → s.child_printed ≡ some message
  silent :
      (s.child_pc ≡ ChildPc.printing) ⊎ (s.child_pc ≡ ChildPc.writing)
      → (s.pipe ≡ []) × (parent_took s.parent_pc s.parent_printed ≡ false)
  early :
      (s.child_pc ≡ ChildPc.reading)
        ⊎ (s.child_pc ≡ ChildPc.opening)
        ⊎ (s.child_pc ≡ ChildPc.testing)
        ⊎ (s.child_pc ≡ ChildPc.absent)
      → s.child_printed ≡ none
  parent_early : before_write s.parent_pc ≡ true → s.parent_printed ≡ none
  parent_reading : s.parent_pc ≡ ParentPc.reading → s.parent_printed ≡ none
  got :
      s.parent_pc ≡ ParentPc.printing
      → ((s.parent_text ≡ message) × (child_took s.child_pc s.child_printed ≡ false))
        ⊎ ((s.parent_text ≡ response_msg) × (s.child_printed ≡ some message))
  drained : parent_took s.parent_pc s.parent_printed ≡ true → s.pipe ≡ []
  prints : (s.child_printed ≡ none) ⊎ (s.child_printed ≡ some message)
  parent_prints :
      (s.parent_printed ≡ none)
      ⊎ ((s.parent_printed ≡ some message) × (child_took s.child_pc s.child_printed ≡ false))
      ⊎ ((s.parent_printed ≡ some response_msg) × (s.child_printed ≡ some message))

parent-Inv : (fails : Bool) (s s' : State) → Inv s → step (parent fails) s ≡ some s' → Inv s'
unfolding step
parent-Inv fails s s' v e = ground (
  arith, read-pipe_laws.0, read-pipe_laws.1, read-pipe_laws.2, texts_differ.0, texts_differ.1,
  texts_differ.2,
)

child-Inv : (fails : Bool) (s s' : State) → Inv s → step (child fails) s ≡ some s' → Inv s'
unfolding step
child-Inv fails s s' v e = ground (
  arith, read-pipe_laws.0, read-pipe_laws.1, read-pipe_laws.2, texts_differ.0, texts_differ.1,
  texts_differ.2,
)

step-Inv : (t : Turn) (s s' : State) → Inv s → step t s ≡ some s' → Inv s'
step-Inv (parent fails) s s' v e = parent-Inv fails s s' v e
step-Inv (child fails) s s' v e = child-Inv fails s s' v e

start-Inv : (exists : Bool) → Inv (main_started exists)
start-Inv exists = record {
  content = inl refl;
  unwritten = λ e. (refl, refl);
  whole = λ e. (refl, refl);
  answer = λ e. absurd (texts_differ.1 (ground (arith, e)));
  holding = λ e. ground (arith, e);
  told = λ e. ground (arith, e);
  silent = λ e. ground (arith, e);
  early = λ e. refl;
  parent_early = λ e. refl;
  parent_reading = λ e. refl;
  got = λ e. ground (arith, e);
  drained = λ e. ground (arith, e);
  prints = inl refl;
  parent_prints = inl refl;
}

run-Inv : (exists : Bool) (ts : List Turn) → Inv (run step ts (main_started exists))
run-Inv exists ts = run_inv step Inv step-Inv ts (main_started exists) (start-Inv exists)

-- What follows "Child: " and "Parent: ".
pub texts :
    (exists : Bool) (ts : List Turn)
    → let s = run step ts (main_started exists) in
      ((s.child_printed ≡ none) ⊎ (s.child_printed ≡ some message))
      × ((s.parent_printed ≡ none)
          ⊎ ((s.parent_printed ≡ some message) × (s.child_printed ≡ none))
          ⊎ ((s.parent_printed ≡ some response_msg) × (s.child_printed ≡ some message)))
texts exists ts = let v = run-Inv exists ts in (v.prints, ground (arith, v.parent_prints, v.prints))

record Starved (s : State) : Type 0 where
  emptied : s.pipe ≡ []
  reads_or_threw : (s.child_pc ≡ ChildPc.reading) ⊎ (s.child_pc ≡ ChildPc.threw)
  silent_child : s.child_printed ≡ none
  parent_past : before_write s.parent_pc ≡ false
  parent_done : s.parent_pc ≢ ParentPc.reading

step-Starved : (t : Turn) (s s' : State) → Starved s → step t s ≡ some s' → Starved s'
unfolding step
step-Starved (parent fails) s s' v e = ground (arith, read-pipe_laws.0)
step-Starved (child fails) s s' v e = ground (arith, read-pipe_laws.0)

-- Once the parent has taken its own message back, a child that stands at its `read` never prints and
-- never ends normally, whatever follows.
pub parent_steals_message :
    (exists : Bool) (ts us : List Turn)
    → let s = run step ts (main_started exists) in
      s.parent_printed ≡ some message
      → s.child_pc ≡ ChildPc.reading
      → ((run step us s).child_printed ≡ none) × ((run step us s).child_pc ≢ ChildPc.finished)
parent_steals_message exists ts us took waits =
    let s = run step ts (main_started exists) in
    let v = run-Inv exists ts in
    let start : Starved s = record {
      emptied = v.drained (ground (arith, took));
      reads_or_threw = inl waits;
      silent_child = v.early (inl waits);
      parent_past = ground (arith, took, v.parent_early);
      parent_done = λ e. ground (arith, took, v.parent_reading, e);
    } in
    let end = run_inv step Starved step-Starved us s start in
    (end.silent_child, λ e. ground (arith, end.reads_or_threw, e))
