-- ===== src/Resources/FileGuard/Examples.antt =====
-- Chapter 5/raii.cpp: tests and applications of the theorems on `file_guard`.
use c_programming_for_linux.Prelude.{◌≡◌, refl, true, false, List, [], ◌∷◌}
use c_programming_for_linux.Resources.Handles.{acquire, release, empty}
use c_programming_for_linux.Resources.FileGuard.{
  Op, create, destroy, construct, destruct, step, run,
}

-- `main`: one guard, destroyed by the exception that `Throw` throws.
abbrev main_ops : List Op
main_ops = create true ∷ destroy 0 ∷ []

main_closes : (run empty main_ops).live 0 ≡ false
unfolding run step construct acquire destruct release
main_closes = refl
