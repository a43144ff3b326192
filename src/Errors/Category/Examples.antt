-- ===== src/Errors/Category/Examples.antt =====
-- Chapter 5/custom-error-category.cpp: `main`, and an application of the theorem on `equivalent`.
use c_programming_for_linux.Prelude.{◌≡◌, ◌↔◌, refl, true}
use c_programming_for_linux.Ipc.Os.{pos, negsuc}
use c_programming_for_linux.Errors.Category.{MyFileLibraryError, to_int, message, Errc, equivalent}
use c_programming_for_linux.Errors.Category.Conditions.{
  condition_of, generic_condition, equivalent_iff,
}

main_message : message (pos 2000) ≡ "The file already exists"
unfolding message
main_message = refl

negative_message : message (negsuc 0) ≡ "Unsupported error"
unfolding message
negative_message = refl

equivalent_iff_example : (equivalent (pos 2000) (generic_condition Errc.file_exists) ≡ true) ↔ (
    (e : MyFileLibraryError) × (pos 2000 ≡ pos (to_int e))
    × (generic_condition Errc.file_exists ≡ generic_condition (condition_of e)))
equivalent_iff_example = equivalent_iff (pos 2000) (generic_condition Errc.file_exists)
