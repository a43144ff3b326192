-- ===== src/Resources/Generator.antt =====
-- Chapter 10/coroutine_socket.cpp: the class `Generator`, which owns the frame of a coroutine. A
-- moved-from variable holds no handle. The coroutine itself is in Sender.
pub mod Ownership
mod Examples
use c_programming_for_linux.Prelude.{
  ℕ, ◌+◌, Bool, true, false, List, [], ◌∷◌, ◌++◌, Option, none, some, ltb, ◌==◌, ◌&&◌,
  if◌then◌else◌, length, set,
}
use c_programming_for_linux.Resources.Handles.{Handle, State, get, acquire, release}

-- What a program does with its variables: a coroutine is called and its generator stored in a new
-- variable; a new variable is made from another by moving; one variable is assigned another by
-- moving; a variable is destroyed.
pub data Op : Type 0 where
  create : Op
  move_construct : (other : ℕ) → Op
  move_assign : (this other : ℕ) → Op
  destroy : (this : ℕ) → Op

-- `get_return_object` with the constructor from a handle.
pub construct : State → State
construct s = acquire s

-- `Generator(Generator&& other)`
pub construct_from : ℕ → State → State
construct_from other s = record s { vars = set (s.vars ++ get s.vars other ∷ []) other none }

-- `~Generator()`
pub destruct : ℕ → State → State
destruct this s = record (release (get s.vars this) s) { vars = set s.vars this none }

-- `operator = (Generator&& other)`: a self-assignment does nothing; the frame held is destroyed.
pub assign_from : ℕ → ℕ → State → State
unfolding destruct
assign_from this other s =
    if this == other
    then s
    else (let t = destruct this s in
        record t { vars = set (set t.vars this (get t.vars other)) other none })

-- An operation on a variable that does not exist is none.
pub step : State → Op → State
step s create = construct s
step s (move_construct other) = if ltb other (length s.vars) then construct_from other s else s
step s (move_assign this other) =
    if ltb this (length s.vars) && ltb other (length s.vars) then assign_from this other s else s
step s (destroy this) = if ltb this (length s.vars) then destruct this s else s

pub run : State → List Op → State
run s [] = s
run s (op ∷ ops) = run (step s op) ops
