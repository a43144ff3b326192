-- ===== src/Errors/Category/Conditions.antt =====
-- Chapter 5/custom-error-category.cpp: which conditions and messages belong to a code.
use c_programming_for_linux.Prelude.{
  ℕ, ◌≡◌, ◌↔◌, ◌⊎◌, refl, inl, inr, Bool-cases, true, false, ◌==◌, arith,
}
use c_programming_for_linux.Ipc.Os.{ℤ, pos, negsuc}
use c_programming_for_linux.Errors.Category.{
  MyFileLibraryError, to_int, is_case, message, generic, Condition, Errc, errno_of, is_errc,
  equivalent,
}

-- The condition that an error of the library stands for.
pub condition_of : MyFileLibraryError → Errc
condition_of MyFileLibraryError.file_not_found = Errc.no_such_file_or_directory
condition_of MyFileLibraryError.file_already_exists = Errc.file_exists
condition_of MyFileLibraryError.file_busy = Errc.text_file_busy
condition_of MyFileLibraryError.file_too_big = Errc.file_too_large

abbrev pub generic_condition : Errc → Condition
generic_condition e = record { value = errno_of e; category = generic }

none_of :
    (n : ℕ)
    → (n == 1000) ≡ false
    → (n == 2000) ≡ false
    → (n == 3000) ≡ false
    → (n == 4000) ≡ false
    → (e : MyFileLibraryError) → is_case (pos n) e ≡ false
unfolding is_case
none_of n a b c d MyFileLibraryError.file_not_found = a
none_of n a b c d MyFileLibraryError.file_already_exists = b
none_of n a b c d MyFileLibraryError.file_busy = c
none_of n a b c d MyFileLibraryError.file_too_big = d

-- A code is one of the four errors, or none of them.
code_cases :
    (code : ℤ)
    → ((e : MyFileLibraryError) × (code ≡ pos (to_int e)))
      ⊎ ((e : MyFileLibraryError) → is_case code e ≡ false)
unfolding is_case
code_cases (negsuc n) = inr (λ e. refl)
code_cases (pos n) = elim (Bool-cases (n == 1000)) [
  | inl h ↦ inl (MyFileLibraryError.file_not_found, ground (arith, h))
  | inr a ↦ elim (Bool-cases (n == 2000)) [
    | inl h ↦ inl (MyFileLibraryError.file_already_exists, ground (arith, h))
    | inr b ↦ elim (Bool-cases (n == 3000)) [
      | inl h ↦ inl (MyFileLibraryError.file_busy, ground (arith, h))
      | inr c ↦ elim (Bool-cases (n == 4000)) [
        | inl h ↦ inl (MyFileLibraryError.file_too_big, ground (arith, h))
        | inr d ↦ inr (none_of n a b c d)
      ]
    ]
  ]
]

is_errc-condition : (c : Condition) (e : Errc) → (is_errc c e ≡ true) ↔ (c ≡ generic_condition e)
unfolding is_errc
is_errc-condition c e = (λ h. ground (arith, h), λ h. ground (arith, h))

equivalent-condition :
    (e : MyFileLibraryError) (c : Condition)
    → equivalent (pos (to_int e)) c ≡ is_errc c (condition_of e)
unfolding equivalent to_int condition_of
equivalent-condition MyFileLibraryError.file_not_found c = refl
equivalent-condition MyFileLibraryError.file_already_exists c = refl
equivalent-condition MyFileLibraryError.file_busy c = refl
equivalent-condition MyFileLibraryError.file_too_big c = refl

-- A code that is none of the four errors is equivalent to no condition, and has the default message.
pub unsupported :
    (code : ℤ)
    → ((e : MyFileLibraryError) → is_case code e ≡ false)
    → ((c : Condition) → equivalent code c ≡ false) × (message code ≡ "Unsupported error")
unfolding equivalent message
unsupported code h =
    let a = h MyFileLibraryError.file_not_found in
    let b = h MyFileLibraryError.file_already_exists in
    let d = h MyFileLibraryError.file_busy in
    let f = h MyFileLibraryError.file_too_big in (λ c. rw (a, b, d, f) refl, rw (a, b, d, f) refl)

-- A code is equivalent to a condition exactly if it is one of the four errors and the condition is
-- the portable one that this error stands for.
pub equivalent_iff :
    (code : ℤ) (c : Condition)
    → (equivalent code c ≡ true) ↔ (
        (e : MyFileLibraryError) × (code ≡ pos (to_int e))
        × (c ≡ generic_condition (condition_of e)))
equivalent_iff code c = (
  λ h. elim (code_cases code) [
    | inl (e, is) ↦ (
      e,
      is,
      (is_errc-condition c (condition_of e)).0 (ground (arith, is, h, equivalent-condition e c)),
    )
    | inr not_one ↦ absurd (ground (arith, h, (unsupported code not_one).0 c))
  ],
  λ (e, is, eq). rw (is, equivalent-condition e c) ((is_errc-condition c (condition_of e)).1 eq),
)
