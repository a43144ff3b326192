-- ===== src/Ipc/Decimal.antt =====
-- `std::to_string` of a number that is not negative, as character codes.
use native.Mathlib.Nat.{pow-suc}
use c_programming_for_linux.Prelude.{
  ℕ, zero, suc, ◌+◌, ◌/◌, ◌%◌, ◌≤◌, ◌<◌, ◌≢◌, List, [], ◌∷◌, ◌++◌, ltb, if◌then◌else◌, arith, All,
  All-append, Bool-cases, inl, inr, ◌^◌, length, length-append,
}

-- Digits by repeated division, with the number itself as fuel, which is enough.
to_string_fuel : ℕ → ℕ → List ℕ
to_string_fuel zero n = []
to_string_fuel (suc fuel) n =
    let rest = to_string_fuel fuel (n / 10) in
    if ltb n 10 then (48 + n) ∷ [] else rest ++ (48 + n % 10) ∷ []

unfoldable pub to_string : ℕ → List ℕ
unfolding to_string_fuel
to_string n = to_string_fuel (suc n) n

one_digit : (n : ℕ) → n < 10 ^ suc 0 → n < 10
one_digit n h = h

tenth : (k n : ℕ) → n < 10 ^ suc (suc k) → n / 10 < 10 ^ suc k
tenth k n h = let e = pow-suc 10 (suc k) in omega (arith, e)

-- Every character is a digit, so none is the terminating zero.
to_string_fuel-All-ne-zero : (fuel n : ℕ) → All (λ c. c ≢ 0) (to_string_fuel fuel n)
unfolding to_string_fuel
to_string_fuel-All-ne-zero zero n = tt
to_string_fuel-All-ne-zero (suc fuel) n = elim (Bool-cases (ltb n 10)) [
  | inl e ↦ rw e (omega arith, tt)
  | inr e ↦ rw e (
      All-append (λ c. c ≢ 0) (to_string_fuel fuel (n / 10)) _
        (to_string_fuel-All-ne-zero fuel (n / 10)) (omega arith, tt))
]

pub to_string-All-ne-zero : (n : ℕ) → All (λ c. c ≢ 0) (to_string n)
unfolding to_string
to_string-All-ne-zero n = to_string_fuel-All-ne-zero (suc n) n

-- A number below 10 ^ (k + 1) has at most k + 1 digits.
to_string_fuel-length : (k fuel n : ℕ) → n < 10 ^ suc k → length (to_string_fuel fuel n) ≤ suc k
unfolding to_string_fuel
to_string_fuel-length k zero n h = omega arith
to_string_fuel-length zero (suc fuel) n h = ground (arith, one_digit n h)
to_string_fuel-length (suc k) (suc fuel) n h = ground (
  arith,
  length-append (to_string_fuel fuel (n / 10)) ((48 + n % 10) ∷ []),
  to_string_fuel-length k fuel (n / 10) (tenth k n h),
)

pub length-to_string-le : (k n : ℕ) → n < 10 ^ suc k → length (to_string n) ≤ suc k
unfolding to_string
length-to_string-le k n h = to_string_fuel-length k (suc n) n h

pub length-to_string-pos : (n : ℕ) → 0 < length (to_string n)
unfolding to_string to_string_fuel
length-to_string-pos n =
    ground (arith, length-append (to_string_fuel n (n / 10)) ((48 + n % 10) ∷ []))
