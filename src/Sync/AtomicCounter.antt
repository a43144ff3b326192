-- ===== src/Sync/AtomicCounter.antt =====
-- Chapter 7/cpp_increment_atomic.cpp: two threads that count on one atomic variable.
pub mod Totals
mod Examples
use c_programming_for_linux.Prelude.{
  ℕ, ◌+◌, Bool, true, false, Option, none, some, ltb, if◌then◌else◌, inc32,
}

pub data Thread : Type 0 where
  t1 t2 : Thread

-- `adding` is `++shared_resource`.
pub data Pc : Type 0 where
  looping adding finished : Pc

pub record State : Type 0 where
  pub shared_resource : ℕ
  pub pc1 : Pc
  pub i1 : ℕ
  pub pc2 : Pc
  pub i2 : ℕ

-- `INT_MAX`
abbrev pub limit : ℕ
limit = 2147483647

abbrev pub main_started : State
main_started = record { shared_resource = 0; pc1 = Pc.looping; i1 = 0; pc2 = Pc.looping; i2 = 0 }

unfoldable pub step : Thread → State → Option State
step t1 s = elim s.pc1 [
  | Pc.looping ↦ some (record s { pc1 = if ltb s.i1 limit then Pc.adding else Pc.finished })
  | Pc.adding ↦
      some (record s { shared_resource = inc32 s.shared_resource; i1 = s.i1 + 1; pc1 = Pc.looping })
  | Pc.finished ↦ none
]
step t2 s = elim s.pc2 [
  | Pc.looping ↦ some (record s { pc2 = if ltb s.i2 limit then Pc.adding else Pc.finished })
  | Pc.adding ↦
      some (record s { shared_resource = inc32 s.shared_resource; i2 = s.i2 + 1; pc2 = Pc.looping })
  | Pc.finished ↦ none
]
