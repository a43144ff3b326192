-- ===== src/Sync/MutexCounter/Examples.antt =====
-- Chapter 7/cpp_mutex.cpp: a run of the two threads.
use c_programming_for_linux.Sync.MutexCounter.Refinement.{abstraction, mutex_refines_atomic}
use c_programming_for_linux.Sync.AtomicCounter
use c_programming_for_linux.Prelude.{◌≡◌, refl, List, [], ◌∷◌, run}
use c_programming_for_linux.Sync.MutexCounter.{Thread, t1, t2, main_started, step}

-- The second thread asks for the mutex while the first owns it.
abbrev contended : List Thread
contended = t1 ∷ t1 ∷ t2 ∷ t1 ∷ t2 ∷ t1 ∷ t1 ∷ t2 ∷ []

contended_result : (run step contended main_started).shared_resource ≡ 1
unfolding run step
contended_result = refl

mutex_refines_atomic_example :
    (us : List AtomicCounter.Thread) × (run AtomicCounter.step us AtomicCounter.main_started
      ≡ abstraction (run step (t1 ∷ t1 ∷ t2 ∷ t1 ∷ t1 ∷ []) main_started))
mutex_refines_atomic_example = mutex_refines_atomic (t1 ∷ t1 ∷ t2 ∷ t1 ∷ t1 ∷ [])
