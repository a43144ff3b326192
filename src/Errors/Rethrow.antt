-- ===== src/Errors/Rethrow.antt =====
-- Chapter 5/rethrow.cpp: an exception that is caught by value and thrown again. What `Throw` throws is
-- an argument of `main_after`.
pub mod Slicing
mod Examples
use c_programming_for_linux.Prelude.{ℕ, Bool, true, false, Option, none, some, if◌then◌else◌}
use c_programming_for_linux.Errors.Category.{CategoryName, generic}
use c_programming_for_linux.Errors.Directory.{ErrorCode}
use c_programming_for_linux.Errors.Exceptions.{
  Class, exception, runtime_error, system_error, bad_cast, is_a, Exception, Outcome, returned,
  threw,
}

abbrev pub ebadf : ℕ
ebadf = 9

-- `Throw`
pub thrown : Exception
thrown = record { class = system_error; code = some (record { value = ebadf; category = generic }) }

-- `catch (runtime_error e) { throw e; }`: `e` is a `runtime_error` made of what was caught.
pub rethrow : Exception → Exception
unfolding is_a
rethrow e = if is_a e.class runtime_error then record { class = runtime_error; code = none } else e

-- `catch (const exception& e)`; what returns is the code whose condition is printed.
pub report : Exception → Outcome (Option ErrorCode)
unfolding is_a
report e =
    if is_a e.class system_error
    then returned e.code
    else threw (record { class = bad_cast; code = none })

pub main_after : Exception → Outcome (Option ErrorCode)
unfolding rethrow report
main_after e = report (rethrow e)

-- `main`
pub main : Outcome (Option ErrorCode)
unfolding main_after thrown
main = main_after thrown
