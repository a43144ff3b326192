-- ===== src/Coroutines/Counting.antt =====
-- Chapter 10/generator_example.cpp: a coroutine that yields 0, 1, 2 and so on, and `main`, which
-- prints them while they are below 100000. The `while` loop takes fuel; `none` is undefined behaviour,
-- the overflow of the coroutine's `int`, or that the fuel has run out.
pub mod Printed
mod Examples
use c_programming_for_linux.Prelude.{
  ℕ, zero, suc, ◌+◌, ◌-◌, ◌%◌, ◌^◌, Bool, true, false, List, [], ◌∷◌, Option, none, some, ltb,
  if◌then◌else◌,
}
use c_programming_for_linux.Ipc.Os.{ℤ, pos, negsuc}

-- The frame: the local variable and the promise.
pub record Generator : Type 0 where
  pub idx : ℕ
  pub curr_value : ℕ

abbrev pub int_max : ℕ
int_max = 2 ^ 31 - 1

-- `exCoroutine()`, suspended before its body.
pub ex_coroutine : Generator
ex_coroutine = record { idx = 0; curr_value = 0 }

-- `yield_value`, into a `uint32_t`.
pub yield_value : ℕ → Generator → Generator
yield_value value g = record g { curr_value = value % 2 ^ 32 }

-- `co_yield idx++`: the increment comes before the suspension.
pub resume : Generator → Option Generator
unfolding yield_value
resume g =
    if ltb g.idx int_max then some (yield_value g.idx (record g { idx = g.idx + 1 })) else none

-- A `uint32_t` returned as an `int`.
pub to_int : ℕ → ℤ
to_int w = if ltb w (2 ^ 31) then pos w else negsuc (2 ^ 32 - w - 1)

pub next : Generator → Option (ℤ × Generator)
unfolding resume to_int
next g = elim (resume g) [ none ↦ none | some g' ↦ some (to_int g'.curr_value, g') ]

-- `idx < limit`
pub below : ℤ → ℕ → Bool
below (pos n) limit = ltb n limit
below (negsuc n) limit = true

-- `for (auto idx = 0; (idx = crt.next()) < limit; )`, with what it prints.
pub print_below : ℕ → ℕ → Generator → Option (List ℤ)
unfolding next below
print_below zero limit g = none
print_below (suc fuel) limit g = elim (next g) [
  | none ↦ none
  | some (idx, g') ↦
      let rest = print_below fuel limit g' in
      if below idx limit
      then (elim rest [ none ↦ none | some printed ↦ some (idx ∷ printed) ])
      else some []
]

pub main : ℕ → Option (List ℤ)
unfolding print_below ex_coroutine
main fuel = print_below fuel 100000 ex_coroutine
