-- ===== src/Coroutines/Counting/Printed.antt =====
-- Chapter 10/generator_example.cpp: what `main` prints.
use c_programming_for_linux.Prelude.{ℕ, zero, suc, ◌+◌, ◌<◌, ◌≡◌, List, [], ◌∷◌, some, arith}
use c_programming_for_linux.Ipc.Os.{ℤ, pos}
use c_programming_for_linux.Coroutines.Counting.{
  Generator, ex_coroutine, print_below, main, next, int_max,
}

-- The numbers from `k` on, `n` of them.
pub from : ℕ → ℕ → List ℤ
from k zero = []
from k (suc n) = pos k ∷ from (k + 1) n

next-idx :
    (g : Generator)
    → g.idx < int_max
    → next g ≡ some (pos g.idx, record { idx = g.idx + 1; curr_value = g.idx })
unfolding next
next-idx g h = ground arith

print_below-from :
    (n fuel : ℕ) (limit : ℕ) (g : Generator)
    → limit ≡ g.idx + n
    → limit < int_max
    → n < fuel
    → print_below fuel limit g ≡ some (from g.idx n)
unfolding print_below from
print_below-from n zero limit g e small more = absurd (omega (arith, more))
print_below-from zero (suc fuel) limit g e small more = ground (arith, next-idx g)
print_below-from (suc n) (suc fuel) limit g e small more =
    let g' : Generator = record { idx = g.idx + 1; curr_value = g.idx } in
    let rest = print_below-from n fuel limit g' (omega (arith, e)) small (omega (arith, more)) in
    ground (arith, next-idx g, rest)

-- For every limit below the greatest `int`, and fuel for more rounds than the limit, the loop of
-- `main` ends, without overflow, and prints the numbers from 0 up to the limit in order.
pub prints_in_order :
    (limit fuel : ℕ)
    → limit < int_max
    → limit < fuel
    → print_below fuel limit ex_coroutine ≡ some (from 0 limit)
unfolding ex_coroutine
prints_in_order limit fuel small more =
    print_below-from limit fuel limit ex_coroutine (omega arith) small more

-- It is so for `main`, whose limit is 100000.
pub main_prints : (fuel : ℕ) → 100000 < fuel → main fuel ≡ some (from 0 100000)
unfolding main
main_prints fuel more = prints_in_order 100000 fuel (omega arith) more
