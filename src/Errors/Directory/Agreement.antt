-- ===== src/Errors/Directory/Agreement.antt =====
-- Chapter 5/error-code.cpp and Chapter 5/error-condition.cpp: the two programs print the same.
use c_programming_for_linux.Prelude.{◌≡◌, refl, [], ◌∷◌, arith}
use c_programming_for_linux.Errors.Directory.{
  created, failed, eexist, error_line, already_exists, Mkdir, main_by_value, main_by_condition,
}

-- Whatever `mkdir` does, the program that compares the value and the one that compares the condition
-- print the same lines.
pub value_agrees_condition : (mkdir : Mkdir) → main_by_value mkdir ≡ main_by_condition mkdir
unfolding main_by_value main_by_condition
value_agrees_condition mkdir = ground arith

-- If the directory can be made, and cannot be made where it exists, the program prints the error of
-- the second call and the last line.
pub second_call_reported :
    (mkdir : Mkdir)
    → mkdir [] ≡ created
    → mkdir (created ∷ []) ≡ failed eexist
    → main_by_value mkdir ≡ error_line 2 eexist ∷ already_exists ∷ []
unfolding main_by_value
second_call_reported mkdir first second = rw (first, second) refl
