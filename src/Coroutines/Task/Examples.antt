-- ===== src/Coroutines/Task/Examples.antt =====
-- Chapter 10/coroutines.cpp: main, and main with the call that it has commented out.
use c_programming_for_linux.Prelude.{◌≡◌, refl, false}
use c_programming_for_linux.Coroutines.Task.{destroyed, ex_coroutine, call, calls, main}

main_leaves_nothing : (main.frame ≡ destroyed) × (main.faulted ≡ false)
unfolding main calls call ex_coroutine
main_leaves_nothing = (refl, refl)
