-- ===== src/Averages.antt =====
-- Chapter 4/mean_value.cpp and Chapter 4/lambdas.cpp: a mean computed by the function object `Mean`
-- and by a lambda, over any type of floating-point numbers. The addresses and names that the members
-- of `Mean` print are left out. `none` is undefined behaviour, the overflow of the `int` that counts.
pub mod Agreement
mod Examples
use c_programming_for_linux.Prelude.{
  ℕ, zero, suc, ◌+◌, ◌-◌, ◌*◌, ◌^◌, Bool, true, false, List, [], ◌∷◌, Option, none, some, ltb, ◌==◌,
  if◌then◌else◌,
}
use c_programming_for_linux.Ipc.Os.{ℤ, pos, negsuc, is_positive, pos_part}

-- What the programs do with a `double`.
pub record Double (Real : Type 0) : Type 0 where
  pub nought : Real
  pub nan : Real
  pub add : Real → Real → Real
  pub divide : Real → ℕ → Real

abbrev pub int_max : ℕ
int_max = 2 ^ 31 - 1

pub record Mean (Real : Type 0) : Type 0 where
  pub sum : Real
  pub count : ℤ

-- `++count`
pub increment : ℤ → Option ℤ
increment (pos n) = if ltb n int_max then some (pos (n + 1)) else none
increment (negsuc zero) = some (pos 0)
increment (negsuc (suc n)) = some (negsuc n)

-- `std::for_each` with an object passed by reference.
pub for_each {ℓ} : {A : Type ℓ} {S : Type ℓ} → (A → S → Option S) → List A → S → Option S
for_each body [] s = some s
for_each body (x ∷ xs) s = elim (body x s) [ none ↦ none | some s' ↦ for_each body xs s' ]

module _ {Real : Type 0} (d : Double Real) where
  -- `Mean()`
  pub construct : Mean Real
  construct = record { sum = d.nought; count = pos 0 }

  -- `Mean(Mean&& a)`: the new object, and what becomes of `a`.
  pub construct_from : Mean Real → Mean Real × Mean Real
  construct_from a =
      (record { sum = a.sum; count = a.count }, record { sum = d.nought; count = negsuc 0 })

  -- `operator=(Mean&& a)`: `a` stays as it is.
  pub assign_from : Mean Real → Mean Real → Mean Real × Mean Real
  assign_from this a = (record { sum = a.sum; count = a.count }, a)

  -- `operator()`
  pub apply : Real → Mean Real → Option (Mean Real)
  unfolding increment
  apply val m = elim (increment m.count) [
    | none ↦ none
    | some count ↦ some (record { sum = d.add m.sum val; count = count })
  ]

  -- What `operator<<` puts out.
  pub mean_of : Mean Real → Real
  mean_of a = if is_positive a.count then d.divide a.sum (pos_part a.count) else d.nan

  -- `main` of mean_value.cpp, for any vector.
  pub mean_value : List Real → Option Real
  unfolding apply mean_of for_each construct
  mean_value v1 = elim (for_each apply v1 construct) [ none ↦ none | some m ↦ some (mean_of m) ]

  -- The variables of the lambda: the captured `mean`, and its own `sum` and `count`.
  pub record Captured : Type 0 where
    pub mean : Real
    pub sum : Real
    pub count : ℕ

  pub lambda_body : Real → Captured → Option Captured
  lambda_body val c =
      if ltb c.count int_max
      then some (record {
        mean = d.divide (d.add c.sum val) (c.count + 1);
        sum = d.add c.sum val;
        count = c.count + 1;
      })
      else none

  pub captured : Captured
  captured = record { mean = d.nought; sum = d.nought; count = 0 }

  -- `mean_lambda`, for any vector: what it prints at the end.
  pub mean_lambda : List Real → Option Real
  unfolding lambda_body for_each captured
  mean_lambda v1 = elim (for_each lambda_body v1 captured) [ none ↦ none | some c ↦ some c.mean ]
