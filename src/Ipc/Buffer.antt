-- ===== src/Ipc/Buffer.antt =====
-- A `std::array<char, N>` as a list of bytes: a call fills a prefix of it, and the programs of
-- Chapter 7 then write a terminating zero behind what came.
use Prim.Native.Char.{code}
use Prim.Native.String.{String}
use c_programming_for_linux.Prelude.{
  ℕ, ◌≤◌, ◌<◌, ◌≡◌, ◌≢◌, refl, Bool, true, false, List, [], ◌∷◌, ◌++◌, Option, none, some, length,
  set, drop, ltb, ◌==◌, ◌&&◌, if◌then◌else◌, arith, All, length-append, length-drop, replicate,
  length-replicate,
}

-- The bytes of an ASCII literal.
unfoldable pub codes : String → List ℕ
codes String.[] = []
codes (String.◌∷◌ c s) = code c ∷ codes s

-- Equality of two texts, as `compare(…) == 0` tests it.
unfoldable pub equal : List ℕ → List ℕ → Bool
equal [] [] = true
equal [] (y ∷ ys) = false
equal (x ∷ xs) [] = false
equal (x ∷ xs) (y ∷ ys) = x == y && equal xs ys

pub equal_self : (xs : List ℕ) → equal xs xs ≡ true
unfolding equal
equal_self [] = refl
equal_self (x ∷ xs) = ground (arith, equal_self xs)

-- `array<char, n> buffer{}`: all zeros.
unfoldable pub array : ℕ → List ℕ
array n = replicate n 0

pub length-array : (n : ℕ) → length (array n) ≡ n
unfolding array
length-array n = length-replicate n 0

-- The buffer once the system has put `bytes` at its start.
unfoldable pub fill : List ℕ → List ℕ → List ℕ
fill buffer bytes = bytes ++ drop (length bytes) buffer

-- `buffer[i] = '\0'`; `none` where `i` is not an index of the array.
unfoldable pub terminate : List ℕ → ℕ → Option (List ℕ)
terminate buffer i = if ltb i (length buffer) then some (set buffer i 0) else none

-- What `cout << buffer.data()` prints: the bytes before the first zero.
unfoldable pub c_str : List ℕ → List ℕ
c_str [] = []
c_str (b ∷ bs) = let rest = c_str bs in if b == 0 then [] else b ∷ rest

pub length-fill :
    (buffer bytes : List ℕ)
    → length bytes ≤ length buffer
    → length (fill buffer bytes) ≡ length buffer
unfolding fill
length-fill buffer bytes h =
    omega
      (arith, length-append bytes (drop (length bytes) buffer), length-drop (length bytes) buffer)

-- The terminating write is within the array exactly if something of it is left.
pub terminate_iff :
    (buffer : List ℕ) (i : ℕ)
    → (length buffer ≤ i → terminate buffer i ≡ none)
      × (i < length buffer → terminate buffer i ≡ some (set buffer i 0))
unfolding terminate
terminate_iff buffer i = (λ h. ground arith, λ h. ground arith)

-- A zero written behind bytes that hold none ends the printed text there.
pub c_str-set :
    (bytes rest : List ℕ)
    → All (λ b. b ≢ 0) bytes
    → 0 < length rest
    → c_str (set (bytes ++ rest) (length bytes) 0) ≡ bytes
unfolding c_str
c_str-set [] [] nz h = absurd (omega arith)
c_str-set [] (r ∷ rest) nz h = refl
c_str-set (b ∷ bytes) rest nz h = ground (arith, c_str-set bytes rest nz.1 h)

-- Bytes without a zero are printed as they came, where the buffer has room for the zero behind them.
pub c_str-fill :
    (buffer bytes : List ℕ)
    → All (λ b. b ≢ 0) bytes
    → length bytes < length buffer
    → c_str (set (fill buffer bytes) (length bytes) 0) ≡ bytes
unfolding fill
c_str-fill buffer bytes nz h =
    c_str-set bytes (drop (length bytes) buffer) nz
      (omega (arith, length-drop (length bytes) buffer))
