-- ===== src/Sync/FifoExchange/Bounds.antt =====
-- Chapter 3/named_pipe_example.c: the arrays keep a zero at their ends.
use c_programming_for_linux.Prelude.{
  ℕ, zero, suc, ◌+◌, ◌≤◌, ◌<◌, ◌≡◌, ◌≢◌, refl, Bool, true, false, List, [], ◌∷◌, some, length,
  length-append, length-take, length-drop, Option-cases, Bool-cases, subst, sym, ◌⊎◌, inl, inr,
  arith, run, run_inv,
}
use c_programming_for_linux.Ipc.Buffer.{array, codes, fill, c_str, length-array, length-fill}
use c_programming_for_linux.Sync.FifoExchange.{
  Process, parent, child, ParentPc, ChildPc, State, buff_len, message, response_msg, terminated,
  main_started, read_fifo, clear, fails_on, parent_step, child_step, step,
}

-- Bytes put into an array of zeros, with room for one more, are followed by a zero.
c_str_of_filled :
    (bytes : List ℕ) (n : ℕ) → length bytes < n → length (c_str (fill (array n) bytes)) < n
unfolding c_str fill array
c_str_of_filled [] zero h = absurd (omega (arith, h))
c_str_of_filled [] (suc n) h = omega arith
c_str_of_filled (b ∷ bs) zero h = absurd (omega (arith, h))
c_str_of_filled (b ∷ bs) (suc n) h = ground (arith, h, c_str_of_filled bs n)

length-texts : (length (terminated message) ≡ 35) × (length (terminated response_msg) ≡ 28)
unfolding message response_msg codes
length-texts = (refl, refl)

clear-message : clear (fill (array buff_len) message) ≡ array buff_len
unfolding clear message codes array fill c_str
clear-message = refl

message-fits : length (c_str (fill (array buff_len) message)) < buff_len
unfolding message codes array fill c_str
message-fits = omega arith

read_fifo-length :
    (bytes taken rest : List ℕ)
    → read_fifo bytes ≡ some (taken, rest)
    → (length taken ≤ length bytes) × (length rest ≤ length bytes)
unfolding read_fifo
read_fifo-length [] taken rest e = absurd (ground (arith, e))
read_fifo-length (b ∷ bs) taken rest e =
    ground (arith, e, length-take buff_len (b ∷ bs), length-drop buff_len (b ∷ bs))

abbrev initial : List ℕ
initial = fill (array buff_len) message

-- An array of the right length in which a zero stands.
abbrev IsText : List ℕ → Type 0
IsText buffer = (length buffer ≡ buff_len) × (length (c_str buffer) < buff_len)

array-IsText : IsText (array buff_len)
unfolding array c_str
array-IsText = (refl, omega arith)

fill-IsText : (bytes : List ℕ) → length bytes ≤ 63 → IsText (fill (array buff_len) bytes)
fill-IsText bytes h = (
  omega (arith, length-fill (array buff_len) bytes, length-array buff_len, h),
  c_str_of_filled bytes buff_len (omega (arith, h)),
)

abbrev ParentFits : ParentPc → List ℕ → Type 0
ParentFits ParentPc.making buffer = buffer ≡ initial
ParentFits ParentPc.forking buffer = buffer ≡ initial
ParentFits ParentPc.opening buffer = buffer ≡ initial
ParentFits ParentPc.writing buffer = buffer ≡ initial
ParentFits ParentPc.clearing buffer = buffer ≡ initial
ParentFits ParentPc.reading buffer = buffer ≡ array buff_len
ParentFits ParentPc.printing buffer = IsText buffer
ParentFits ParentPc.closing buffer = Unit
ParentFits ParentPc.finished buffer = Unit
ParentFits ParentPc.faulted buffer = false ≡ true

abbrev ChildFits : ChildPc → List ℕ → Type 0
ChildFits ChildPc.testing buffer = IsText buffer
ChildFits ChildPc.printing buffer = IsText buffer
ChildFits ChildPc.writing buffer = Unit
ChildFits ChildPc.closing buffer = Unit
ChildFits ChildPc.finished buffer = Unit
ChildFits ChildPc.faulted buffer = false ≡ true
ChildFits pc buffer = buffer ≡ array buff_len

-- What each process has written at most.
abbrev parent_written : ParentPc → ℕ
parent_written ParentPc.making = 0
parent_written ParentPc.forking = 0
parent_written ParentPc.opening = 0
parent_written ParentPc.writing = 0
parent_written pc = 35

abbrev child_written : ChildPc → ℕ
child_written ChildPc.closing = 28
child_written ChildPc.finished = 28
child_written pc = 0

record Inv (s : State) : Type 0 where
  parent_fits : ParentFits s.parent_pc s.parent_message
  child_fits : ChildFits s.child_pc s.child_message
  written : length s.fifo ≤ parent_written s.parent_pc + child_written s.child_pc
  no_child :
      (s.parent_pc ≡ ParentPc.making) ⊎ (s.parent_pc ≡ ParentPc.forking)
      → s.child_pc ≡ ChildPc.absent

-- The parent reads what both have written at most.
parent_read-Inv :
    (s s' : State) (taken rest : List ℕ)
    → s.parent_pc ≡ ParentPc.reading
    → Inv s
    → read_fifo s.fifo ≡ some (taken, rest)
    → record s {
      parent_message = fill s.parent_message taken;
      fifo = rest;
      parent_pc = ParentPc.printing;
    }
      ≡ s'
    → Inv s'
parent_read-Inv s s' taken rest at v there same =
    let (small, smaller) = read_fifo-length s.fifo taken rest there in
    let total : length s.fifo ≤ 63 = ground (arith, v.written) in
    let zeros : s.parent_message ≡ array buff_len = ground (arith, at, v.parent_fits) in
    subst Inv same (record {
      parent_fits =
          subst (λ b. IsText (fill b taken)) (sym zeros)
            (fill-IsText taken (omega (arith, small, total)));
      child_fits = v.child_fits;
      written = ground (arith, at, v.written, smaller);
      no_child = λ h. ground (arith, h);
    })

parent-Inv :
    (fails : Bool) (pc : ParentPc) (s s' : State)
    → s.parent_pc ≡ pc
    → Inv s
    → parent_step fails pc s ≡ some s'
    → Inv s'
unfolding parent_step
parent-Inv fails ParentPc.making s s' at v e = ground arith
parent-Inv fails ParentPc.forking s s' at v e = ground arith
parent-Inv fails ParentPc.opening s s' at v e = ground arith
parent-Inv fails ParentPc.writing s s' at v e =
    ground (arith, length-append s.fifo (terminated message), length-texts)
parent-Inv fails ParentPc.clearing s s' at v e = ground (arith, clear-message)
parent-Inv fails ParentPc.reading s s' at v e = elim (Bool-cases (fails_on s.parent_open fails)) [
  | inl failed ↦ ground (arith, at, e, failed, array-IsText, v.parent_fits, v.child_fits, v.written)
  | inr works ↦ elim (Option-cases (read_fifo s.fifo)) [
    | inl empty ↦ absurd (ground (arith, e, works, empty))
    | inr ((taken, rest), there) ↦
        parent_read-Inv s s' taken rest at v there (ground (arith, e, works, there))
  ]
]
parent-Inv fails ParentPc.printing s s' at v e = ground arith
parent-Inv fails ParentPc.closing s s' at v e = ground arith
parent-Inv fails ParentPc.finished s s' at v e = ground arith
parent-Inv fails ParentPc.faulted s s' at v e = ground arith

child-Inv :
    (fails : Bool) (pc : ChildPc) (s s' : State)
    → s.child_pc ≡ pc
    → Inv s
    → child_step fails pc s ≡ some s'
    → Inv s'
unfolding child_step
child-Inv fails ChildPc.absent s s' at v e = ground arith
child-Inv fails ChildPc.opening s s' at v e = ground arith
child-Inv fails ChildPc.reading s s' at v e = elim (Option-cases (read_fifo s.fifo)) [
  | inl empty ↦ ground (arith, empty, array-IsText)
  | inr ((taken, rest), there) ↦
      let (small, smaller) = read_fifo-length s.fifo taken rest there in
      let total : length s.fifo ≤ 63 = ground (arith, v.written) in
      ground (
        arith,
        there,
        small,
        smaller,
        array-IsText,
        fill-IsText taken (omega (arith, small, total)),
      )
]
child-Inv fails ChildPc.testing s s' at v e = ground arith
child-Inv fails ChildPc.printing s s' at v e = ground arith
child-Inv fails ChildPc.writing s s' at v e =
    ground (arith, length-append s.fifo (terminated response_msg), length-texts)
child-Inv fails ChildPc.closing s s' at v e = ground arith
child-Inv fails ChildPc.finished s s' at v e = ground arith
child-Inv fails ChildPc.faulted s s' at v e = ground arith

step-Inv : (t : Process × Bool) (s s' : State) → Inv s → step t s ≡ some s' → Inv s'
unfolding step
step-Inv (parent, fails) s s' v e = parent-Inv fails s.parent_pc s s' refl v e
step-Inv (child, fails) s s' v e = child-Inv fails s.child_pc s s' refl v e

main_started-Inv : (exists : Bool) → Inv (main_started exists)
unfolding main_started
main_started-Inv exists = record {
  parent_fits = refl;
  child_fits = refl;
  written = omega arith;
  no_child = λ h. refl;
}

-- Where the name is a FIFO's or free: whatever calls fail, that of mkfifo included, under every schedule the FIFO holds at most 63 bytes, so that a zero is left in
-- both arrays of 64, and neither printf reads behind the end of its array.
pub fifo_texts_fit :
    (exists : Bool) (ts : List (Process × Bool))
    → let s = run step ts (main_started exists) in
      (length s.fifo < buff_len) × (s.parent_pc ≢ ParentPc.faulted) × (s.child_pc ≢ ChildPc.faulted)
fifo_texts_fit exists ts =
    let s = run step ts (main_started exists) in
    let v : Inv s = run_inv step Inv step-Inv ts (main_started exists) (main_started-Inv exists) in
    (
      ground (arith, v.written),
      λ e. ground (arith, e, v.parent_fits),
      λ e. ground (arith, e, v.child_fits),
    )
