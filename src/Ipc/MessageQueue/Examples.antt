-- ===== src/Ipc/MessageQueue/Examples.antt =====
-- Chapter 7/mq_example.cpp: readers and writers whose calls repeat one result.
use c_programming_for_linux.Prelude.{[], ◌∷◌}
use c_programming_for_linux.Ipc.Os.{pos, negsuc, Call, Os}
use c_programming_for_linux.Ipc.Peers.{repeating, repeating-FillsBuffers}
use c_programming_for_linux.Ipc.MessageQueue.{write_to_queue}
use c_programming_for_linux.Ipc.MessageQueue.Messages.{FullMessages, write_to_queue-FullMessages}

write_to_queue-FullMessages_example :
    FullMessages (write_to_queue (repeating (72 ∷ 105 ∷ [])) 2 []).1
write_to_queue-FullMessages_example =
    write_to_queue-FullMessages (repeating (72 ∷ 105 ∷ [])) (repeating-FillsBuffers (72 ∷ 105 ∷ []))
      2 [] tt

-- A system in which every call but the opening of the queue fails.
failing : Os
failing h Call.mq_open = record { ret = pos 3; bytes = [] }
failing h c = record { ret = negsuc 0; bytes = [] }
