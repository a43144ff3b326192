-- ===== src/Sync/TicketLock/Examples.antt =====
-- Chapter 9/ticket_lock.cpp: runs of the two threads.
use c_programming_for_linux.Prelude.{◌≡◌, refl, List, [], ◌∷◌, ◌++◌, run, true, false}
use c_programming_for_linux.Sync.TicketLock.{test1, Thread, produce, consume, spinlock, step}
use c_programming_for_linux.Sync.TicketLock.Invariant.{consumer_critical, is_whole}
use c_programming_for_linux.Sync.TicketLock.Refinement.{
  Move, start, round_step, abstraction, ticket_lock_refines_rounds,
}
use c_programming_for_linux.Sync.TicketLock.Safety.{
  mutual_exclusion, consumer_sees_whole_rounds, ticket_lock_never_stuck, all_finished,
}

-- The producer is between its two writes; the consumer has a ticket and spins.
abbrev half_way : List Thread
half_way = produce ∷ consume ∷ produce ∷ produce ∷ consume ∷ []

-- The producer has released the lock, and the consumer is about to clear the vector.
abbrev about_to_clear : List Thread
about_to_clear = half_way ++ produce ∷ produce ∷ produce ∷ consume ∷ consume ∷ []

half_way_written : (run step half_way spinlock).shared_res ≡ test1 ∷ []
unfolding run step
half_way_written = refl

-- The producer may append again between the consumer's `unlock` and its test for "Consumed".
missed_consumed :
    (run step
      (about_to_clear ++ consume ∷ consume ∷ produce ∷ produce ∷ produce ∷ consume ∷ [])
      spinlock).consumed
    ≡ 0
unfolding run step
missed_consumed = refl

mutual_exclusion_example : consumer_critical (run step half_way spinlock).consumer ≡ false
unfolding run step
mutual_exclusion_example = mutual_exclusion half_way refl

consumer_sees_whole_rounds_example : is_whole (run step about_to_clear spinlock).shared_res ≡ true
unfolding run step
consumer_sees_whole_rounds_example = consumer_sees_whole_rounds about_to_clear refl

ticket_lock_never_stuck_example :
    (us : List Thread) × (all_finished (run step us (run step half_way spinlock)) ≡ true)
ticket_lock_never_stuck_example = ticket_lock_never_stuck half_way

ticket_lock_refines_rounds_example :
    (us : List Move) × (run round_step us start ≡ abstraction (run step half_way spinlock))
ticket_lock_refines_rounds_example = ticket_lock_refines_rounds half_way
