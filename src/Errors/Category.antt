-- ===== src/Errors/Category.antt =====
-- Chapter 5/custom-error-category.cpp: an error category with its messages and its mapping to the
-- portable conditions. The `switch` over an `int` is a chain of tests, in the source's order. How
-- `==` compares a code with a condition is the library's: either category may say yes.
pub mod Conditions
mod Examples
use Prim.Native.String.{String}
use c_programming_for_linux.Prelude.{ℕ, Bool, true, false, List, [], ◌∷◌, ◌==◌, ◌||◌, if◌then◌else◌}
use c_programming_for_linux.Ipc.Os.{ℤ, pos, negsuc}

pub data MyFileLibraryError : Type 0 where
  file_not_found file_already_exists file_busy file_too_big : MyFileLibraryError

-- `static_cast<int>`
pub to_int : MyFileLibraryError → ℕ
to_int MyFileLibraryError.file_not_found = 1000
to_int MyFileLibraryError.file_already_exists = 2000
to_int MyFileLibraryError.file_busy = 3000
to_int MyFileLibraryError.file_too_big = 4000

-- `case e:` for the value of the `switch`.
pub is_case : ℤ → MyFileLibraryError → Bool
unfolding to_int
is_case (pos n) e = n == to_int e
is_case (negsuc n) e = false

pub message : ℤ → String
unfolding is_case
message ev =
    if is_case ev MyFileLibraryError.file_not_found
    then "The file was not found"
    else if is_case ev MyFileLibraryError.file_busy
    then "The file is busy"
    else if is_case ev MyFileLibraryError.file_already_exists
    then "The file already exists"
    else if is_case ev MyFileLibraryError.file_too_big
    then "The file too big and can't be processed"
    else "Unsupported error"

pub data CategoryName : Type 0 where
  generic my_file_lib other : CategoryName

-- A `std::error_condition`, and the ones of `std::errc` that the program names.
pub record Condition : Type 0 where
  pub value : ℕ
  pub category : CategoryName

pub data Errc : Type 0 where
  file_exists no_such_file_or_directory text_file_busy file_too_large : Errc

pub errno_of : Errc → ℕ
errno_of Errc.file_exists = 17
errno_of Errc.no_such_file_or_directory = 2
errno_of Errc.text_file_busy = 26
errno_of Errc.file_too_large = 27

-- `condition == std::errc::e`
pub is_errc : Condition → Errc → Bool
unfolding errno_of
is_errc condition e = elim condition.category [
  | generic ↦ condition.value == errno_of e
  | my_file_lib ↦ false
  | other ↦ false
]

pub equivalent : ℤ → Condition → Bool
unfolding is_case is_errc
equivalent code condition =
    if is_case code MyFileLibraryError.file_already_exists
    then is_errc condition Errc.file_exists
    else if is_case code MyFileLibraryError.file_not_found
    then is_errc condition Errc.no_such_file_or_directory
    else if is_case code MyFileLibraryError.file_busy
    then is_errc condition Errc.text_file_busy
    else if is_case code MyFileLibraryError.file_too_big
    then is_errc condition Errc.file_too_large
    else false
