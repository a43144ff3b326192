-- ===== src/Coroutines/Counting/Examples.antt =====
-- Chapter 10/generator_example.cpp: tests and an application of the theorem on `main`.
use c_programming_for_linux.Prelude.{◌≡◌, refl, [], ◌∷◌, none, some, arith}
use c_programming_for_linux.Ipc.Os.{pos}
use c_programming_for_linux.Coroutines.Counting.{ex_coroutine, print_below, int_max, next}
use c_programming_for_linux.Coroutines.Counting.Printed.{from, prints_in_order}

first_three : print_below 4 3 ex_coroutine ≡ some (pos 0 ∷ pos 1 ∷ pos 2 ∷ [])
unfolding print_below ex_coroutine
first_three = refl

overflow : next (record { idx = int_max; curr_value = 0 }) ≡ none
unfolding next
overflow = refl

prints_in_order_example : print_below 100001 100000 ex_coroutine ≡ some (from 0 100000)
prints_in_order_example = prints_in_order 100000 100001 (omega arith) (omega arith)
