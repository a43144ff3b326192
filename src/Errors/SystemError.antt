-- ===== src/Errors/SystemError.antt =====
-- Chapter 5/system-error.cpp: both calls of mkdir throw what they fail with, and main goes on after a
-- directory that exists already. What `mkdir` does is a parameter, a function of the calls before.
pub mod Handling
mod Examples
use c_programming_for_linux.Prelude.{
  ℕ, Bool, true, false, List, [], ◌∷◌, ◌++◌, Option, none, some, if◌then◌else◌,
}
use c_programming_for_linux.Errors.Category.{CategoryName, generic, my_file_lib, other}
use c_programming_for_linux.Errors.Directory.{
  Made, created, failed, ErrorCode, Mkdir, is_file_exists,
}
use c_programming_for_linux.Errors.Exceptions.{system_error, Exception, Outcome, returned, threw}

pub data Line : Type 0 where
  reports_error : ErrorCode → Line
  unexpected : ErrorCode → Line
  nothing_unexpected : Line

-- The calls of mkdir so far, and the lines printed.
pub record Log : Type 0 where
  pub calls : List Made
  pub lines : List Line

-- A call leaves a log, and returns or throws.
abbrev pub M : Type 0
M = Log → Outcome (Unit {0}) × Log

abbrev pub print : Line → Log → Log
print line log = record log { lines = log.lines ++ line ∷ [] }

-- The second call is made if the first returns.
abbrev pub and_then : M → M → M
and_then m k log =
    let (outcome, log') = m log in
    elim outcome [ returned done ↦ k log' | threw e ↦ (threw e, log') ]

-- `make_error_code(errc{errno})`, which is its own default condition.
abbrev pub make_error_code : ℕ → ErrorCode
make_error_code errno = record { value = errno; category = generic }

module _ (mkdir : Mkdir) where
  -- `CreateDirectory`
  pub create_directory : M
  create_directory log =
      let made = mkdir log.calls in
      let log' = record log { calls = log.calls ++ made ∷ [] } in
      elim made [
        | created ↦ (returned tt, log')
        | failed errno ↦
            let ecode = make_error_code errno in
            (
              threw (record { class = system_error; code = some ecode }),
              print (reports_error ecode) log',
            )
      ]

  -- The handler; an exception without a code does not come here.
  pub handle : Exception → M
  unfolding is_file_exists
  handle se log = elim se.code [
    | none ↦ (threw se, log)
    | some ecode ↦
        if is_file_exists ecode
        then (returned tt, print nothing_unexpected log)
        else (threw se, print (unexpected ecode) log)
  ]

  pub main : Outcome (Unit {0}) × Log
  unfolding create_directory handle
  main =
      let (outcome, log) =
        and_then create_directory create_directory (record { calls = []; lines = [] }) in
      elim outcome [ returned done ↦ (returned tt, log) | threw se ↦ handle se log ]
