-- ===== src/Ipc/Peers.antt =====
-- A system in which every peer repeats one message: a call that fills a buffer gets what fits of it.
use c_programming_for_linux.Prelude.{ℕ, ◌≤◌, ◌≡◌, List, [], length, take, length-take, arith}
use c_programming_for_linux.Ipc.Os.{pos, Call, Reply, Os, FillsBuffers}

pub received : List ℕ → ℕ → Reply
received message size =
    let bytes = take size message in record { ret = pos (length bytes); bytes = bytes }

unfoldable pub repeating : List ℕ → Os
unfolding received
repeating message h (Call.recv fd size) = received message size
repeating message h (Call.recvfrom fd size) = received message size
repeating message h (Call.read fd size) = received message size
repeating message h (Call.mq_receive fd size) = received message size
repeating message h (Call.accept fd) = record { ret = pos 4; bytes = [] }
repeating message h (Call.socket kind) = record { ret = pos 3; bytes = [] }
repeating message h (Call.opens name) = record { ret = pos 3; bytes = [] }
repeating message h c = record { ret = pos 0; bytes = [] }

received-le :
    (message : List ℕ) (size n : ℕ)
    → (received message size).ret ≡ pos n
    → (n ≤ size) × (length (received message size).bytes ≡ n)
unfolding received
received-le message size n e = ground (arith, length-take size message)

pub repeating-FillsBuffers : (message : List ℕ) → FillsBuffers (repeating message)
unfolding repeating
repeating-FillsBuffers message h (Call.recv fd size) s n e r =
    ground (arith, received-le message size n)
repeating-FillsBuffers message h (Call.recvfrom fd size) s n e r =
    ground (arith, received-le message size n)
repeating-FillsBuffers message h (Call.read fd size) s n e r =
    ground (arith, received-le message size n)
repeating-FillsBuffers message h (Call.mq_receive fd size) s n e r =
    ground (arith, received-le message size n)
repeating-FillsBuffers message h c s n e r = cc
