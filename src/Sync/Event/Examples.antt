-- ===== src/Sync/Event/Examples.antt =====
-- Chapter 10/shmem_coroutines.cpp: runs of the two threads.
use c_programming_for_linux.Prelude.{
  ◌≡◌, ◌≢◌, refl, List, [], ◌∷◌, none, some, true, false, arith, run,
}
use c_programming_for_linux.Sync.Event.{
  Thread, receiver_t, sender_t, Granted, Coroutine, main_started, step,
}
use c_programming_for_linux.Sync.Event.Delivery.{event_delivers}

abbrev granted : Granted
granted = record {
  notify_sizes = true;
  notify_maps = true;
  receiver_sizes = true;
  receiver_maps = true;
}

-- The coroutine is suspended, and then notified.
abbrev in_order : List Thread
in_order =
    receiver_t ∷ receiver_t ∷ receiver_t ∷ sender_t ∷ sender_t ∷ sender_t ∷ sender_t ∷ sender_t
    ∷ sender_t ∷ sender_t ∷ sender_t ∷ sender_t ∷ sender_t ∷ []

message_printed : (run (step granted 4096) in_order main_started).printed ≡ some 4096
unfolding run step
message_printed = refl

event_delivers_example :
    let s = run (step granted 4096) in_order main_started in
    (s.notified ≡ false)
    × (s.killed ≡ false)
    × (s.notify_error ≡ false)
    × (s.coroutine ≢ Coroutine.returned
        → (s.printed ≡ none) × (s.faulted ≡ false) × (s.receiver_error ≡ false))
    × (s.coroutine ≡ Coroutine.returned
        → true ≡ true
        → (s.printed ≡ some 4096) × (s.faulted ≡ false) × (s.receiver_error ≡ false))
    × (s.coroutine ≡ Coroutine.returned
        → true ≡ false
        → (s.printed ≡ none) × (s.faulted ≡ false) × (s.receiver_error ≡ true))
event_delivers_example = event_delivers granted 4096 in_order refl refl (λ e. ground (arith, e))
