-- ===== src/Errors/Rethrow/Slicing.antt =====
-- Chapter 5/rethrow.cpp: the code is lost, and the cast to `system_error` fails.
use c_programming_for_linux.Prelude.{◌≡◌, none, arith}
use c_programming_for_linux.Errors.Exceptions.{bad_cast, is_a, Exception, threw}
use c_programming_for_linux.Errors.Rethrow.{rethrow, report, main_after}

-- Whatever is thrown first, a `system_error` included, the message is never printed: the program is
-- terminated by a `bad_cast`.
pub slicing_terminates :
    (e : Exception) → main_after e ≡ threw (record { class = bad_cast; code = none })
unfolding main_after rethrow report is_a
slicing_terminates e = ground arith
