-- ===== src/Sync/SharedMessage/Examples.antt =====
-- Chapter 9/shared_mem_sp.cpp: runs of the two threads.
use c_programming_for_linux.Prelude.{◌+◌, ◌≡◌, ◌≤◌, refl, List, [], ◌∷◌, true, false, some, run}
use c_programming_for_linux.Sync.SharedMessage.{
  Thread, server, client, Granted, Pc, main_started, step,
}
use c_programming_for_linux.Sync.SharedMessage.Delivery.{
  owns, ended, all_calls_succeed, consumer_gets_message, delivery_never_stuck,
}

abbrev all_granted : Granted
all_granted = record {
  producer_opens = true;
  producer_sizes = true;
  producer_maps = true;
  consumer_opens = true;
  consumer_maps = true;
}

-- The consumer sleeps before the producer starts.
abbrev consumer_first : List Thread
consumer_first =
    client ∷ client ∷ server ∷ server ∷ server ∷ server ∷ server ∷ server ∷ server ∷ server ∷ server
    ∷ client ∷ client ∷ client ∷ client ∷ client ∷ client ∷ client ∷ client ∷ []

consumer_gets_message_example :
    let s = run (step all_granted 26) consumer_first main_started in
    (owns s.produce_pc + owns s.consume_pc ≤ 1)
    × (s.consume_pc ≡ Pc.finished → s.received ≡ some 26)
consumer_gets_message_example = consumer_gets_message all_granted 26 consumer_first

received_message : (run (step all_granted 26) consumer_first main_started).received ≡ some 26
unfolding run step
received_message = refl

delivery_never_stuck_example :
    let s = run (step all_granted 26) consumer_first main_started in
    (s.terminated ≡ true → all_calls_succeed all_granted 26 ≡ false)
    × (s.killed ≡ true → true ≡ false)
    × ((us : List Thread) × (ended all_granted 26 (run (step all_granted 26) us s) ≡ true))
delivery_never_stuck_example = delivery_never_stuck all_granted 26 consumer_first
