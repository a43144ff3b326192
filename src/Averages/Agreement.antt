-- ===== src/Averages/Agreement.antt =====
-- Chapter 4/mean_value.cpp and Chapter 4/lambdas.cpp: what both compute, and where they differ.
use c_programming_for_linux.Prelude.{
  ℕ, ◌+◌, ◌≤◌, ◌≡◌, refl, List, [], ◌∷◌, some, ltb, if◌then◌else◌, length, arith,
}
use c_programming_for_linux.Ipc.Os.{pos}
use c_programming_for_linux.Averages.{
  Double, int_max, Mean, for_each, construct_from, apply, mean_of, mean_value, lambda_body,
  mean_lambda,
}

module _ {Real : Type 0} (d : Double Real) where
  -- The sum of a list, added from the left.
  pub sum_from : Real → List Real → Real
  sum_from acc [] = acc
  sum_from acc (x ∷ xs) = sum_from (d.add acc x) xs

  -- A count that starts at `k` goes up by one for each value.
  for_each-apply :
      (xs : List Real) (k : ℕ) (acc : Real)
      → k + length xs ≤ int_max
      → for_each (apply d) xs (record { sum = acc; count = pos k })
        ≡ some (record { sum = sum_from acc xs; count = pos (k + length xs) })
  unfolding for_each apply sum_from
  for_each-apply [] k acc h = ground arith
  for_each-apply (x ∷ xs) k acc h =
      ground (arith, for_each-apply xs (k + 1) (d.add acc x) (omega (arith, h)), h)

  -- The mean after a list, where `mean` was the one before it.
  last_mean : ℕ → Real → Real → List Real → Real
  last_mean k acc mean [] = mean
  last_mean k acc mean (x ∷ xs) = d.divide (sum_from acc (x ∷ xs)) (k + length (x ∷ xs))

  for_each-lambda :
      (xs : List Real) (k : ℕ) (mean acc : Real)
      → k + length xs ≤ int_max
      → for_each (lambda_body d) xs (record { mean = mean; sum = acc; count = k })
        ≡ some (record {
          mean = last_mean k acc mean xs;
          sum = sum_from acc xs;
          count = k + length xs;
        })
  unfolding for_each lambda_body sum_from last_mean
  for_each-lambda [] k mean acc h = ground arith
  for_each-lambda (x ∷ []) k mean acc h = ground (arith, h)
  for_each-lambda (x ∷ y ∷ xs) k mean acc h = ground (
    arith,
    for_each-lambda (y ∷ xs) (k + 1) (d.divide (d.add acc x) (k + 1)) (d.add acc x)
        (omega (arith, h)),
    h,
  )

  -- For every vector that is not empty and whose length is an `int`, both programs print the same
  -- number: the sum of the vector, added from the left, divided by its length.
  pub programs_agree :
      (x : Real) (xs : List Real)
      → length (x ∷ xs) ≤ int_max
      → let quotient = d.divide (sum_from d.nought (x ∷ xs)) (length (x ∷ xs)) in
        (mean_value d (x ∷ xs) ≡ some quotient) × (mean_lambda d (x ∷ xs) ≡ some quotient)
  unfolding mean_value mean_lambda last_mean
  programs_agree x xs h = (
    ground (arith, for_each-apply (x ∷ xs) 0 d.nought (omega (arith, h))),
    ground (arith, for_each-lambda (x ∷ xs) 0 d.nought d.nought (omega (arith, h))),
  )

  -- On the empty vector `Mean` prints a NaN, and the lambda's program prints 0.
  pub programs_empty : (mean_value d [] ≡ some d.nan) × (mean_lambda d [] ≡ some d.nought)
  unfolding mean_value mean_lambda
  programs_empty = (refl, refl)

  -- An object that has been moved from counts one value too few: if it is then given a vector that is
  -- not empty, it divides the sum by one less than the length, or prints a NaN for a single value.
  pub moved_from_miscounts :
      (a : Mean Real) (x : Real) (xs : List Real)
      → length xs ≤ int_max
      → (m : Mean Real) × (for_each (apply d) (x ∷ xs) (construct_from d a).1 ≡ some m)
        × (mean_of d m ≡ (
            if ltb 0 (length xs) then d.divide (sum_from d.nought (x ∷ xs)) (length xs) else d.nan))
  unfolding for_each apply construct_from sum_from mean_of
  moved_from_miscounts a x xs h = (
    record { sum = sum_from d.nought (x ∷ xs); count = pos (length xs) },
    ground (arith, for_each-apply xs 0 (d.add d.nought x) (omega (arith, h))),
    ground arith,
  )
