-- ===== src/Errors/Directory.antt =====
-- Chapter 5/error-code.cpp and Chapter 5/error-condition.cpp: both make a directory twice and report
-- the errors, one by the number of the error, the other by a portable condition. What `mkdir` does is
-- a parameter, a function of the calls before; the texts of the library's messages are numbers.
pub mod Agreement
mod Examples
use Prim.Native.String.{String}
use c_programming_for_linux.Prelude.{
  ℕ, ◌+◌, Bool, true, false, List, [], ◌∷◌, ◌++◌, ◌==◌, if◌then◌else◌,
}
use c_programming_for_linux.Errors.Category.{CategoryName, generic, my_file_lib, other}

-- `mkdir` makes the directory, or fails with an `errno`.
pub data Made : Type 0 where
  created : Made
  failed : (errno : ℕ) → Made

-- A `std::error_code`; `ecode{}` is 0 in a category of the system, here `other`.
pub record ErrorCode : Type 0 where
  pub value : ℕ
  pub category : CategoryName

abbrev pub eexist : ℕ
eexist = 17

-- A line on `cerr` with the error's message, or one on `cout`.
pub data Line : Type 0 where
  error_line : (number value : ℕ) → Line
  already_exists : Line

abbrev no_error : ErrorCode
no_error = record { value = 0; category = other }

-- `CreateDirectory` of error-code.cpp
pub create_directory : Made → ErrorCode
create_directory created = no_error
create_directory (failed errno) = record { value = errno; category = generic }

-- `CreateDirectory` of error-condition.cpp, by way of `std::errc` and `make_error_code`.
pub create_directory_portable : Made → ErrorCode
create_directory_portable created = no_error
create_directory_portable (failed errno) =
    let cond : ℕ = errno in record { value = cond; category = generic }

-- `if (ecode)`
pub report : ℕ → ErrorCode → List Line
report number ecode = if ecode.value == 0 then [] else error_line number ecode.value ∷ []

-- `ecode == std::errc::file_exists`
unfoldable pub is_file_exists : ErrorCode → Bool
is_file_exists ecode = elim ecode.category [
  | generic ↦ ecode.value == eexist
  | my_file_lib ↦ false
  | other ↦ false
]

abbrev pub Mkdir : Type 0
Mkdir = List Made → Made

-- `main` of error-code.cpp
pub main_by_value : Mkdir → List Line
unfolding create_directory report
main_by_value mkdir =
    let first = mkdir [] in
    let second = mkdir (first ∷ []) in
    let ecode = create_directory second in
    report 1 (create_directory first)
    ++ report 2 ecode
    ++ (if ecode.value == eexist then already_exists ∷ [] else [])

-- `main` of error-condition.cpp
pub main_by_condition : Mkdir → List Line
unfolding create_directory_portable report is_file_exists
main_by_condition mkdir =
    let first = mkdir [] in
    let second = mkdir (first ∷ []) in
    let ecode = create_directory_portable second in
    report 1 (create_directory_portable first)
    ++ report 2 ecode
    ++ (if is_file_exists ecode then already_exists ∷ [] else [])
