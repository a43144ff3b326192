-- ===== src/Errors/Rethrow/Examples.antt =====
-- Chapter 5/rethrow.cpp: what `main` ends with.
use c_programming_for_linux.Prelude.{◌≡◌, none}
use c_programming_for_linux.Errors.Exceptions.{bad_cast, threw}
use c_programming_for_linux.Errors.Rethrow.{thrown, main_after, main}
use c_programming_for_linux.Errors.Rethrow.Slicing.{slicing_terminates}

main_terminates : main ≡ threw (record { class = bad_cast; code = none })
unfolding main
main_terminates = slicing_terminates thrown

slicing_terminates_example : main_after thrown ≡ threw (record { class = bad_cast; code = none })
slicing_terminates_example = slicing_terminates thrown
