-- ===== src/Sync/MutexCounter.antt =====
-- Chapter 7/cpp_mutex.cpp: two threads that count under a `lock_guard`. The increment reads the
-- counter in one turn and writes it in another.
pub mod Total
pub mod Refinement
mod Examples
use c_programming_for_linux.Prelude.{
  ℕ, ◌+◌, Bool, true, false, Option, none, some, ltb, if◌then◌else◌, inc32,
}

pub data Thread : Type 0 where
  t1 t2 : Thread

-- `locking` and `unlocking` are the constructor and the destructor of the `lock_guard`.
pub data Pc : Type 0 where
  looping : Pc
  locking : Pc
  reading : Pc
  writing : (value : ℕ) → Pc
  unlocking : Pc
  finished : Pc

pub record State : Type 0 where
  pub shared_resource : ℕ
  pub locked : Bool
  pub pc1 : Pc
  pub i1 : ℕ
  pub pc2 : Pc
  pub i2 : ℕ

-- `INT_MAX`
abbrev pub limit : ℕ
limit = 2147483647

abbrev pub main_started : State
main_started = record {
  shared_resource = 0;
  locked = false;
  pc1 = Pc.looping;
  i1 = 0;
  pc2 = Pc.looping;
  i2 = 0;
}

pub record Move : Type 0 where
  pub resource : ℕ
  pub lock : Bool
  pub pc : Pc
  pub i : ℕ

-- One turn of `increment`, over the counter, the mutex and the thread's `i`.
pub increment_step : Pc → ℕ → ℕ → Bool → Option Move
increment_step Pc.looping i r locked =
    if ltb i limit
    then some (record { resource = r; lock = locked; pc = Pc.locking; i = i })
    else some (record { resource = r; lock = locked; pc = Pc.finished; i = i })
increment_step Pc.locking i r locked =
    if locked then none else some (record { resource = r; lock = true; pc = Pc.reading; i = i })
increment_step Pc.reading i r locked =
    some (record { resource = r; lock = locked; pc = Pc.writing r; i = i })
increment_step (Pc.writing value) i r locked =
    some (record { resource = inc32 value; lock = locked; pc = Pc.unlocking; i = i })
increment_step Pc.unlocking i r locked =
    some (record { resource = r; lock = false; pc = Pc.looping; i = i + 1 })
increment_step Pc.finished i r locked = none

pub step : Thread → State → Option State
unfolding increment_step
step t1 s = elim (increment_step s.pc1 s.i1 s.shared_resource s.locked) [
  | none ↦ none
  | some m ↦ some (record s { shared_resource = m.resource; locked = m.lock; pc1 = m.pc; i1 = m.i })
]
step t2 s = elim (increment_step s.pc2 s.i2 s.shared_resource s.locked) [
  | none ↦ none
  | some m ↦ some (record s { shared_resource = m.resource; locked = m.lock; pc2 = m.pc; i2 = m.i })
]
