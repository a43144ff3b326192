-- ===== src/Sync/PosixSemaphore/Examples.antt =====
-- Chapter 7/posix_semaphore_example.c: runs of the two threads.
use c_programming_for_linux.Prelude.{◌≡◌, ◌+◌, refl, List, [], ◌∷◌, run}
use c_programming_for_linux.Sync.PosixSemaphore.{Thread, producer, consumer, main_started, step}
use c_programming_for_linux.Sync.PosixSemaphore.Flag.{inside}

-- Both threads pass `sem_wait`, and neither has posted.
abbrev overlapping : List Thread
overlapping = producer ∷ producer ∷ producer ∷ consumer ∷ consumer ∷ consumer ∷ consumer ∷ []

both_inside :
    inside (run step overlapping main_started).produce_pc
      + inside (run step overlapping main_started).consume_pc
    ≡ 2
unfolding run step
both_inside = refl
