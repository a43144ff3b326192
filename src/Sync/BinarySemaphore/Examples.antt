-- ===== src/Sync/BinarySemaphore/Examples.antt =====
-- Chapter 7/cpp_sem_example.cpp: runs of the two threads.
use c_programming_for_linux.Prelude.{◌≡◌, ◌≤◌, ◌+◌, refl, List, [], ◌∷◌, run}
use c_programming_for_linux.Sync.BinarySemaphore.{
  Thread, producer, consumer, Pc, main_started, step,
}
use c_programming_for_linux.Sync.BinarySemaphore.Handover.{holds, exclusive_handover}

-- The producer has made one value, and the consumer holds it.
abbrev one_value : List Thread
one_value = producer ∷ producer ∷ producer ∷ producer ∷ consumer ∷ consumer ∷ []

one_value_made : (run step one_value main_started).shared_resource ≡ 1
unfolding run step
one_value_made = refl

exclusive_handover_example :
    let s = run step one_value main_started in
    (s.sem_to_produce ≤ 1)
    × (s.sem_to_consume ≤ 1)
    × (holds s.produce_pc + holds s.consume_pc ≤ 1)
    × (s.shared_resource ≤ 1)
    × (s.consume_pc ≡ Pc.updating → s.shared_resource ≡ 1)
exclusive_handover_example = exclusive_handover one_value
