-- ===== src/Resources/FileGuard.antt =====
-- Chapter 5/raii.cpp: the class `file_guard`, which owns a file descriptor, and `main`. A variable
-- whose `fd` is -1 holds no handle; `open` fails or not as the operation says, and its number is
-- the next one, since the kernel gives out no descriptor that is in use.
pub mod Descriptors
mod Examples
use c_programming_for_linux.Prelude.{
  ℕ, Bool, true, false, List, [], ◌∷◌, ◌++◌, Option, none, some, ltb, ◌&&◌, ◌||◌, if◌then◌else◌,
  length, set,
}
use c_programming_for_linux.Resources.Handles.{Handle, State, get, acquire, release}

pub data Op : Type 0 where
  create : (opens : Bool) → Op
  move_construct : (other : ℕ) → Op
  move_assign : (this other : ℕ) → Op
  destroy : (this : ℕ) → Op

-- `file_guard(string_view file, mode_t mode)`: where `open` fails the constructor throws, and there
-- is no object.
pub construct : Bool → State → State
construct opens s = if opens then acquire s else s

-- `file_guard(file_guard&& other)`
pub construct_from : ℕ → State → State
construct_from other s = record s { vars = set (s.vars ++ get s.vars other ∷ []) other none }

-- `operator=(file_guard&& other)`: it neither closes the descriptor held nor looks for a
-- self-assignment.
pub assign_from : ℕ → ℕ → State → State
assign_from this other s = record s { vars = set (set s.vars this (get s.vars other)) other none }

-- `~file_guard()`
pub destruct : ℕ → State → State
destruct this s = record (release (get s.vars this) s) { vars = set s.vars this none }

-- An operation on a variable that does not exist is none.
pub step : State → Op → State
step s (create opens) = construct opens s
step s (move_construct other) = if ltb other (length s.vars) then construct_from other s else s
step s (move_assign this other) =
    if ltb this (length s.vars) && ltb other (length s.vars) then assign_from this other s else s
step s (destroy this) = if ltb this (length s.vars) then destruct this s else s

pub run : State → List Op → State
run s [] = s
run s (op ∷ ops) = run (step s op) ops

pub holds_one : Handle → Bool
holds_one none = false
holds_one (some r) = true

-- Does an operation assign to a variable that holds a descriptor?
pub overwrites : State → Op → Bool
overwrites s (create opens) = false
overwrites s (move_construct other) = false
overwrites s (move_assign this other) = holds_one (get s.vars this)
overwrites s (destroy this) = false

pub overwrites_any : State → List Op → Bool
overwrites_any s [] = false
overwrites_any s (op ∷ ops) = overwrites s op || overwrites_any (step s op) ops
