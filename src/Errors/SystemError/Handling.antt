-- ===== src/Errors/SystemError/Handling.antt =====
-- Chapter 5/system-error.cpp: how the program ends, by what mkdir does.
use c_programming_for_linux.Prelude.{
  ◌≡◌, Bool, true, false, List, [], ◌∷◌, ◌==◌, if◌then◌else◌, arith,
}
use c_programming_for_linux.Errors.Directory.{Made, created, failed, eexist, Mkdir, is_file_exists}
use c_programming_for_linux.Errors.Exceptions.{Outcome, returned, threw}
use c_programming_for_linux.Errors.SystemError.{
  Line, reports_error, unexpected, nothing_unexpected, make_error_code, create_directory, handle,
  main,
}

abbrev pub is_uncaught : Outcome (Unit {0}) → Bool
is_uncaught (returned done) = false
is_uncaught (threw e) = true

-- The calls of a program that makes two, and stops at the first that fails.
abbrev pub attempts : Mkdir → List Made
attempts mkdir = elim (mkdir []) [
  | created ↦ created ∷ mkdir (created ∷ []) ∷ []
  | failed errno ↦ failed errno ∷ []
]

-- A failure for another reason than that the directory exists.
abbrev pub fails_unexpectedly : List Made → Bool
fails_unexpectedly [] = false
fails_unexpectedly (created ∷ ms) = fails_unexpectedly ms
fails_unexpectedly (failed errno ∷ ms) = if errno == eexist then false else true

abbrev pub lines_for : List Made → List Line
lines_for [] = []
lines_for (created ∷ ms) = lines_for ms
lines_for (failed errno ∷ ms) =
    reports_error (make_error_code errno)
    ∷ (if errno == eexist then nothing_unexpected else unexpected (make_error_code errno))
    ∷ []

-- Whatever mkdir does: main calls it a second time exactly if the first call succeeds, an exception
-- leaves main exactly if a call fails for another reason than an existing directory, and the lines are
-- those of the failure, if there is one.
pub main_handles_errors :
    (mkdir : Mkdir)
    → ((main mkdir).1.calls ≡ attempts mkdir)
      × (is_uncaught (main mkdir).0 ≡ fails_unexpectedly (attempts mkdir))
      × ((main mkdir).1.lines ≡ lines_for (attempts mkdir))
unfolding main create_directory handle is_file_exists
main_handles_errors mkdir = ground arith
