-- ===== src/Coroutines/Task.antt =====
-- Chapter 10/coroutines.cpp: a coroutine that returns at once, and the task that holds its frame.
pub mod Uses
mod Examples
use c_programming_for_linux.Prelude.{Bool, true, false, List, [], ◌∷◌}

-- The frame is suspended at its start until it is resumed or destroyed. `faulted` says that a frame
-- was used that was no longer there.
pub data Frame : Type 0 where
  suspended_at_start destroyed : Frame

pub record Task : Type 0 where
  pub frame : Frame
  pub faulted : Bool

-- The calls that `Task` offers.
pub data Op : Type 0 where
  resume destroy : Op

-- `exCoroutine()`: `initial_suspend` suspends before the body.
pub ex_coroutine : Task
ex_coroutine = record { frame = suspended_at_start; faulted = false }

-- The body is `co_return`; `final_suspend` does not suspend, so that the frame is destroyed after it.
pub call : Op → Task → Task
call resume t = elim t.frame [
  | suspended_at_start ↦ record t { frame = destroyed }
  | destroyed ↦ record t { faulted = true }
]
call destroy t = elim t.frame [
  | suspended_at_start ↦ record t { frame = destroyed }
  | destroyed ↦ record t { faulted = true }
]

pub calls : List Op → Task → Task
unfolding call
calls [] t = t
calls (op ∷ ops) t = calls ops (call op t)

-- `main`: the call of `destroy` is commented out.
pub main : Task
unfolding calls ex_coroutine
main = calls (resume ∷ []) ex_coroutine
