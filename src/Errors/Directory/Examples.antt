-- ===== src/Errors/Directory/Examples.antt =====
-- Chapter 5/error-code.cpp and Chapter 5/error-condition.cpp: a file system with one directory.
use c_programming_for_linux.Prelude.{◌≡◌, [], ◌∷◌}
use c_programming_for_linux.Errors.Directory.{
  created, failed, eexist, Mkdir, main_by_value, main_by_condition,
}
use c_programming_for_linux.Errors.Directory.Agreement.{value_agrees_condition}

-- The first call makes the directory, and the others find it.
one_directory : Mkdir
one_directory [] = created
one_directory (m ∷ ms) = failed eexist

one_directory_by_both : main_by_value one_directory ≡ main_by_condition one_directory
one_directory_by_both = value_agrees_condition one_directory
