-- ===== src/Sync/SeparateCounters.antt =====
-- Chapter 9/hardware_interference_example.cpp: threads that each count on an atomic variable of their
-- own, and main, which joins them in order. The clock and the lines on addresses are left out.
pub mod Joining
pub mod Totals
mod Examples
use c_programming_for_linux.Prelude.{
  ℕ, zero, suc, ◌+◌, Bool, true, false, List, [], ◌∷◌, Option, none, some, ltb, if◌then◌else◌, set,
  get_elem?, inc32,
}

pub data Turn : Type 0 where
  main_turn : Turn
  thread_turn : ℕ → Turn

-- `adding` is `shared_res++`.
pub data Pc : Type 0 where
  looping adding finished : Pc

-- A thread with its variable, the `uint32_t` `a_var1` for the first.
pub record Thread : Type 0 where
  pub shared_res : ℕ
  pub i : ℕ
  pub pc : Pc

-- `joined` counts the threads that main has joined.
pub record State : Type 0 where
  pub threads : List Thread
  pub joined : ℕ

abbrev pub limit : ℕ
limit = 100000

pub started : ℕ → List Thread
started zero = []
started (suc n) = record { shared_res = 0; i = 0; pc = Pc.looping } ∷ started n

-- `main`, once its threads are made; it makes three.
pub main_started : ℕ → State
unfolding started
main_started n = record { threads = started n; joined = 0 }

pub increment_step : Thread → Pc → Option Thread
increment_step t Pc.looping =
    some (record t { pc = if ltb t.i limit then Pc.adding else Pc.finished })
increment_step t Pc.adding =
    some (record t { shared_res = inc32 t.shared_res; i = t.i + 1; pc = Pc.looping })
increment_step t Pc.finished = none

pub thread_step : ℕ → State → Option State
unfolding increment_step
thread_step k s = elim (get_elem? s.threads k) [
  | none ↦ none
  | some t ↦ elim (increment_step t t.pc) [
    | none ↦ none
    | some t' ↦ some (record s { threads = set s.threads k t' })
  ]
]

-- `join` of the next thread.
pub join_step : State → Option State
join_step s = elim (get_elem? s.threads s.joined) [
  | none ↦ none
  | some t ↦ elim t.pc [ Pc.finished ↦ some (record s { joined = s.joined + 1 }) | _ ↦ none ]
]

pub step : Turn → State → Option State
unfolding thread_step join_step
step main_turn s = join_step s
step (thread_turn k) s = thread_step k s
