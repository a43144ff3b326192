-- ===== src/Sync/Promise/Examples.antt =====
-- Chapter 6/future-promise.cpp: main waits for the thread's exit.
use Prim.Native.String.{String}
use c_programming_for_linux.Prelude.{◌≡◌, refl, List, [], ◌∷◌, run}
use c_programming_for_linux.Sync.Promise.{
  Turn, main_turn, th1, MainPc, main_started, get, main_step, thread_step, step,
}

abbrev text : String
text = "I promised to call you back once I am ready!\n"

abbrev value_set : List Turn
value_set = main_turn ∷ th1 ∷ main_turn ∷ main_turn ∷ []

-- The value is set, but not ready before the thread exits.
still_waiting : (run (step text) value_set main_started).main_pc ≡ MainPc.getting
unfolding run step main_step thread_step get
still_waiting = refl
