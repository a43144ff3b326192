-- ===== src/Averages/Examples.antt =====
-- Chapter 4/mean_value.cpp and Chapter 4/lambdas.cpp: the means of tenths, as whole numbers.
use c_programming_for_linux.Prelude.{ℕ, ◌+◌, ◌/◌, ◌≡◌, refl, List, [], ◌∷◌, some, arith}
use c_programming_for_linux.Averages.{Double, mean_value, mean_lambda}
use c_programming_for_linux.Averages.Agreement.{sum_from, programs_agree}

abbrev tenths : Double ℕ
tenths = record { nought = 0; nan = 0; add = λ x y. x + y; divide = λ x n. x / n }

abbrev v1 : List ℕ
v1 = 10 ∷ 25 ∷ 40 ∷ 55 ∷ []

programs_agree_example :
    let quotient = (sum_from tenths 0 v1) / 4 in
    (mean_value tenths v1 ≡ some quotient) × (mean_lambda tenths v1 ≡ some quotient)
programs_agree_example = programs_agree tenths 10 (25 ∷ 40 ∷ 55 ∷ []) (omega arith)

mean_of_v1 : mean_value tenths v1 ≡ some 32
unfolding mean_value
mean_of_v1 = refl
