-- ===== src/Errors/SystemError/Examples.antt =====
-- Chapter 5/system-error.cpp: a directory that the second call finds, and one that may not be made.
use c_programming_for_linux.Prelude.{◌≡◌, false, [], ◌∷◌}
use c_programming_for_linux.Errors.Directory.{created, failed, eexist, Mkdir}
use c_programming_for_linux.Errors.SystemError.{main}
use c_programming_for_linux.Errors.SystemError.Handling.{
  is_uncaught, attempts, fails_unexpectedly, lines_for, main_handles_errors,
}

abbrev one_directory : Mkdir
one_directory [] = created
one_directory (m ∷ ms) = failed eexist

main_handles_errors_example :
    ((main one_directory).1.calls ≡ attempts one_directory)
    × (is_uncaught (main one_directory).0 ≡ fails_unexpectedly (attempts one_directory))
    × ((main one_directory).1.lines ≡ lines_for (attempts one_directory))
main_handles_errors_example = main_handles_errors one_directory

goes_on : is_uncaught (main one_directory).0 ≡ false
goes_on = (main_handles_errors one_directory).1
