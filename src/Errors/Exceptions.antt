-- ===== src/Errors/Exceptions.antt =====
-- Exceptions of the standard library: their classes, and programs that may throw.
use c_programming_for_linux.Prelude.{Bool, true, false, Option}
use c_programming_for_linux.Errors.Directory.{ErrorCode}

-- `exception` is the base of the others, and `runtime_error` that of `system_error`.
pub data Class : Type 0 where
  exception runtime_error logic_error system_error bad_cast : Class

-- `is_a c d`: a handler for the class `d` takes an object of the class `c`.
unfoldable pub is_a : Class → Class → Bool
is_a c exception = true
is_a runtime_error runtime_error = true
is_a system_error runtime_error = true
is_a system_error system_error = true
is_a logic_error logic_error = true
is_a bad_cast bad_cast = true
is_a c d = false

-- Only a `system_error` holds a code.
pub record Exception : Type 0 where
  pub class : Class
  pub code : Option ErrorCode

-- How a call, or a program, ends: an exception that `main` lets out terminates the program.
pub data Outcome (A : Type 0) : Type 0 where
  returned : A → Outcome A
  threw : Exception → Outcome A
