-- ===== src/Resources/Generator/Examples.antt =====
-- Chapter 10/coroutine_socket.cpp: tests and applications of the theorems on `Generator`.
use c_programming_for_linux.Prelude.{◌≡◌, refl, false, List, [], ◌∷◌}
use c_programming_for_linux.Resources.Handles.{acquire, release, IsOwned, empty, empty-IsOwned}
use c_programming_for_linux.Resources.Generator.{
  Op, create, move_construct, move_assign, destroy, construct, construct_from, destruct,
  assign_from, step, run,
}
use c_programming_for_linux.Resources.Generator.Ownership.{frames_have_one_owner}

-- Two coroutines; the second is moved over the first, moved on into a new variable, and destroyed.
abbrev ops : List Op
ops = create ∷ create ∷ move_assign 0 1 ∷ move_construct 0 ∷ destroy 1 ∷ destroy 2 ∷ []

first_frame_destroyed : (run empty ops).live 0 ≡ false
unfolding run step construct acquire assign_from construct_from destruct release
first_frame_destroyed = refl

frames_have_one_owner_example : IsOwned (run empty ops)
frames_have_one_owner_example = frames_have_one_owner ops empty empty-IsOwned
