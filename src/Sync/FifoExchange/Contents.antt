-- ===== src/Sync/FifoExchange/Contents.antt =====
-- Chapter 3/named_pipe_example.c: what the FIFO and the arrays hold, if no call fails.
use c_programming_for_linux.Prelude.{
  ℕ, ◌≡◌, ◌≢◌, refl, ◌⊎◌, Bool, true, false, List, [], Option, none, some, arith, ap, length,
}
use c_programming_for_linux.Ipc.Buffer.{array, codes, fill, c_str}
use c_programming_for_linux.Sync.FifoExchange.{
  ParentPc, ChildPc, State, buff_len, message, response_msg, terminated, read_fifo, clear,
}

abbrev pub sent : List ℕ
sent = terminated message

abbrev pub answer : List ℕ
answer = terminated response_msg

-- A text as an array of 64 holds it.
abbrev pub held : List ℕ → List ℕ
held bytes = fill (array buff_len) bytes

pub reads :
    (read_fifo [] ≡ none)
    × (read_fifo sent ≡ some (sent, []))
    × (read_fifo answer ≡ some (answer, []))
unfolding read_fifo message response_msg codes
reads = (refl, refl, refl)

pub holds :
    (clear (held message) ≡ array buff_len)
    × (c_str (held sent) ≡ message)
    × (c_str (held answer) ≡ response_msg)
    × (length (held sent) ≡ buff_len)
    × (length (held answer) ≡ buff_len)
    × (length message ≡ 34)
    × (length response_msg ≡ 27)
unfolding clear message response_msg codes array fill c_str
holds = (refl, refl, refl, refl, refl, refl, refl)

pub texts_differ : (sent ≢ []) × (answer ≢ []) × (message ≢ response_msg) × (sent ≢ answer)
unfolding message response_msg codes
texts_differ = (
  λ e. cc,
  λ e. cc,
  λ e. let lengths : length message ≡ length response_msg = ap length e in omega (arith, lengths),
  λ e. let lengths : length sent ≡ length answer = ap length e in omega (arith, lengths),
)

-- The stages of the exchange: what the parent and the child have done to the FIFO.
abbrev pub has_written : ParentPc → Bool
has_written ParentPc.making = false
has_written ParentPc.forking = false
has_written ParentPc.opening = false
has_written ParentPc.writing = false
has_written pc = true

abbrev pub parent_took : ParentPc → Bool
parent_took ParentPc.printing = true
parent_took ParentPc.closing = true
parent_took ParentPc.finished = true
parent_took ParentPc.faulted = true
parent_took pc = false

abbrev pub child_took : ChildPc → Bool
child_took ChildPc.absent = false
child_took ChildPc.opening = false
child_took ChildPc.reading = false
child_took pc = true

abbrev pub has_answered : ChildPc → Bool
has_answered ChildPc.closing = true
has_answered ChildPc.finished = true
has_answered pc = false

-- Its own message, while the child has read nothing, or the response.
abbrev pub ParentTook : ChildPc → List ℕ → Type 0
ParentTook pc buffer =
    ((buffer ≡ held sent) × (child_took pc ≡ false))
    ⊎ ((buffer ≡ held answer) × (has_answered pc ≡ true))

abbrev pub ParentPrinted : ChildPc → Option (List ℕ) → Type 0
ParentPrinted pc text =
    ((text ≡ some message) × (child_took pc ≡ false))
    ⊎ ((text ≡ some response_msg) × (has_answered pc ≡ true))

abbrev pub ParentFits : ParentPc → State → Type 0
ParentFits ParentPc.reading s =
    (s.parent_message ≡ array buff_len) × (s.parent_printed ≡ none) × (s.parent_open ≡ true)
ParentFits ParentPc.printing s = ParentTook s.child_pc s.parent_message × (s.parent_printed ≡ none)
ParentFits ParentPc.closing s = ParentPrinted s.child_pc s.parent_printed
ParentFits ParentPc.finished s = ParentPrinted s.child_pc s.parent_printed
ParentFits ParentPc.faulted s = false ≡ true
ParentFits ParentPc.writing s =
    (s.parent_message ≡ held message) × (s.parent_printed ≡ none) × (s.parent_open ≡ true)
ParentFits ParentPc.clearing s =
    (s.parent_message ≡ held message) × (s.parent_printed ≡ none) × (s.parent_open ≡ true)
ParentFits pc s = (s.parent_message ≡ held message) × (s.parent_printed ≡ none)

abbrev pub ChildFits : ChildPc → List ℕ → Bool → Option (List ℕ) → Type 0
ChildFits ChildPc.testing buffer received printed =
    (buffer ≡ held sent) × (received ≡ true) × (printed ≡ none)
ChildFits ChildPc.printing buffer received printed = (buffer ≡ held sent) × (printed ≡ none)
ChildFits ChildPc.writing buffer received printed = printed ≡ some message
ChildFits ChildPc.closing buffer received printed = printed ≡ some message
ChildFits ChildPc.finished buffer received printed = printed ≡ some message
ChildFits ChildPc.faulted buffer received printed = false ≡ true
ChildFits pc buffer received printed = (buffer ≡ array buff_len) × (printed ≡ none)

abbrev pub FifoFits : Bool → Bool → Bool → Bool → List ℕ → Type 0
FifoFits false parent_took child_took answered bytes = (bytes ≡ []) × (child_took ≡ false)
FifoFits true true child_took answered bytes = bytes ≡ []
FifoFits true false false answered bytes = bytes ≡ sent
FifoFits true false true false bytes = bytes ≡ []
FifoFits true false true true bytes = bytes ≡ answer

pub record Inv (s : State) : Type 0 where
  pub made : s.parent_pc ≢ ParentPc.making → s.exists ≡ true
  pub born : s.child_pc ≢ ChildPc.absent → s.exists ≡ true
  pub parent_fits : ParentFits s.parent_pc s
  pub child_fits : ChildFits s.child_pc s.child_message s.received s.child_printed
  pub fifo_fits :
      FifoFits
        (has_written s.parent_pc)
        (parent_took s.parent_pc)
        (child_took s.child_pc)
        (has_answered s.child_pc)
        s.fifo
