-- ===== src/Ipc/Os.antt =====
-- The operating system as the programs of Chapter 7 call it. It is a parameter: a function from the
-- history of the calls made so far, newest first, and the next call to its reply. A program is a
-- function from a history to an outcome and the longer history.
use c_programming_for_linux.Prelude.{
  ℕ, ◌≤◌, ◌≡◌, ◌⊎◌, inl, inr, refl, Bool, true, false, List, ◌∷◌, Option, none, some, length, ltb,
  ◌==◌,
}
use Prim.Native.String.{String}

-- The `int` and `ssize_t` results. `negsuc n` is -(n + 1).
pub data ℤ : Type 0 where
  pos : ℕ → ℤ
  negsuc : ℕ → ℤ

-- `r < 0`, `r > 0` and `r == -1`
abbrev pub is_negative : ℤ → Bool
is_negative (pos n) = false
is_negative (negsuc n) = true

abbrev pub is_positive : ℤ → Bool
is_positive (pos n) = ltb 0 n
is_positive (negsuc n) = false

abbrev pub is_minus_one : ℤ → Bool
is_minus_one (pos n) = false
is_minus_one (negsuc n) = n == 0

abbrev pub pos_part : ℤ → ℕ
pos_part (pos n) = n
pos_part (negsuc n) = 0

pub data SocketType : Type 0 where
  stream datagram : SocketType

-- A call with the arguments that the programs vary: a descriptor, the size of the buffer to fill,
-- or the bytes handed over. `print` is a line on `cout` or `cerr`, a label and then bytes.
pub data Call : Type 0 where
  print : String → List ℕ → Call
  getpid : Call
  fork : Call
  socket : SocketType → Call
  bind : (fd : ℤ) (port : ℕ) → Call
  listen : (fd : ℤ) (backlog : ℕ) → Call
  connect : (fd : ℤ) (port : ℕ) → Call
  accept : (fd : ℤ) → Call
  recv : (fd : ℤ) (size : ℕ) → Call
  recvfrom : (fd : ℤ) (size : ℕ) → Call
  send : (fd : ℤ) → List ℕ → Call
  sendto : (fd : ℤ) → List ℕ → Call
  opens : String → Call
  read : (fd : ℤ) (size : ℕ) → Call
  close : (fd : ℤ) → Call
  mq_open : Call
  mq_receive : (fd : ℤ) (size : ℕ) → Call
  mq_send : (fd : ℤ) → List ℕ → Call
  mq_close : (fd : ℤ) → Call
  mq_unlink : Call
  cin : Call
  rand : Call

-- What a call returns, and the bytes that it puts into the caller's buffer.
pub record Reply : Type 0 where
  pub ret : ℤ
  pub bytes : List ℕ

abbrev pub History : Type 0
History = List (Call × Reply)

abbrev pub Os : Type 0
Os = History → Call → Reply

-- What failed when a `system_error` is thrown, after the message on `cerr` that goes with it.
pub data Failure : Type 0 where
  opening_socket binding_socket connecting_socket closing_socket sending receiving forking : Failure

-- `thrown` is a `system_error`; `fault` is undefined behaviour: a write past the end of a buffer, a
-- read of an object that has been destroyed, or an overflow of an `int`.
pub data Outcome {ℓ} (A : Type ℓ) : Type ℓ where
  ok : A → Outcome A
  thrown : Failure → Outcome A
  exited : ℕ → Outcome A
  fault : Outcome A

abbrev pub is_ok {ℓ} : {A : Type ℓ} → Outcome A → Bool
is_ok (ok a) = true
is_ok _ = false

pub Outcome-cases {ℓ} : {A : Type ℓ} (o : Outcome A) → ((a : A) × (o ≡ ok a)) ⊎ (is_ok o ≡ false)
Outcome-cases (ok a) = inl (a, refl)
Outcome-cases (thrown e) = inr refl
Outcome-cases (exited n) = inr refl
Outcome-cases fault = inr refl

abbrev pub M : Type 0 → Type 0
M A = History → Outcome A × History

abbrev pub and_then : {A B : Type 0} → Outcome A × History → (A → M B) → Outcome B × History
and_then (ok a, h) f = f a h
and_then (thrown e, h) f = (thrown e, h)
and_then (exited n, h) f = (exited n, h)
and_then (fault, h) f = (fault, h)

infixl 5 ◌>>=◌ ◌>>◌
abbrev pub ◌>>=◌ : {A B : Type 0} → M A → (A → M B) → M B
◌>>=◌ m f h = and_then (m h) f

abbrev pub ◌>>◌ : {A B : Type 0} → M A → M B → M B
◌>>◌ m k h = and_then (m h) (λ _. k)

abbrev pub return : {A : Type 0} → A → M A
return a h = (ok a, h)

abbrev pub throw : {A : Type 0} → Failure → M A
throw e h = (thrown e, h)

abbrev pub exit : {A : Type 0} → ℕ → M A
exit n h = (exited n, h)

-- A write to an array: out of bounds it is undefined behaviour.
abbrev pub or_fault : {A : Type 0} → Option A → M A
or_fault none h = (fault, h)
or_fault (some a) h = (ok a, h)

abbrev pub call : Os → Call → M Reply
call os c h = let r = os h c in (ok r, (c, r) ∷ h)

abbrev pub undefined : {A : Type 0} → M A
undefined h = (fault, h)

-- The size of the buffer that a call may fill.
abbrev pub room : Call → Option ℕ
room (Call.recv fd size) = some size
room (Call.recvfrom fd size) = some size
room (Call.read fd size) = some size
room (Call.mq_receive fd size) = some size
room _ = none

-- The documented contract of the calls that fill a buffer: a result that is not negative is the
-- number of bytes put there, and that is at most the size given.
abbrev pub FillsBuffers : Os → Type 0
FillsBuffers os =
    (h : History) (c : Call) (size n : ℕ)
    → room c ≡ some size
    → (os h c).ret ≡ pos n
    → (n ≤ size) × (length (os h c).bytes ≡ n)
