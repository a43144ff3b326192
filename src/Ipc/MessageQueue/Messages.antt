-- ===== src/Ipc/MessageQueue/Messages.antt =====
-- Chapter 7/mq_example.cpp: the messages that the writer sends, and what the reader does with them.
use c_programming_for_linux.Prelude.{
  ℕ, zero, suc, ◌+◌, ◌≡◌, ◌↔◌, ◌⊎◌, refl, true, false, List, [], ◌∷◌, length, arith,
}
use c_programming_for_linux.Ipc.Os.{
  ℤ, pos, negsuc, is_negative, is_positive, Call, Os, History, ok, fault, FillsBuffers, call,
}
use c_programming_for_linux.Ipc.Buffer.{array, length-array, fill, length-fill, terminate_iff}
use c_programming_for_linux.Ipc.MessageQueue.{
  max_size, receive_round, receive_loop, read_from_queue, send_round, send_loop, write_to_queue,
  close_both,
}

-- The messages sent in a history are empty or fill the reader's buffer.
abbrev pub FullMessages : History → Type 0
FullMessages [] = Unit {0}
FullMessages ((Call.mq_send mq bytes, r) ∷ h) =
    ((length bytes ≡ 0) ⊎ (length bytes ≡ max_size)) × FullMessages h
FullMessages ((c, r) ∷ h) = FullMessages h

module _ (os : Os) (honest : FillsBuffers os) where
  receive_round-fault :
      (mq : ℤ) (buffer : List ℕ) (h : History) (r : ℤ)
      → length buffer ≡ 1024
      → (os h (Call.mq_receive mq max_size)).ret ≡ r
      → ((receive_round os mq buffer h).0 ≡ fault) ↔ (r ≡ pos max_size)
  unfolding receive_round
  receive_round-fault mq buffer h (pos n) len e =
      let bytes = (os h (Call.mq_receive mq max_size)).bytes in
      let (le, got) = honest h (Call.mq_receive mq max_size) 1024 n refl e in
      let size = length-fill buffer bytes in
      let (full, left) = terminate_iff (fill buffer bytes) n in
      (λ f. ground arith, λ f. ground arith)
  receive_round-fault mq buffer h (negsuc n) len e = (λ f. ground arith, λ f. ground arith)

  -- The reader writes the terminating zero behind the end of its buffer exactly if the message has
  -- `MAX_SIZE` bytes.
  pub message_overruns_iff_full :
      (mq : ℤ) (buffer : List ℕ) (h : History)
      → length buffer ≡ max_size
      → ((receive_round os mq buffer h).0 ≡ fault)
        ↔ ((os h (Call.mq_receive mq max_size)).ret ≡ pos max_size)
  message_overruns_iff_full mq buffer h len =
      receive_round-fault mq buffer h (os h (Call.mq_receive mq max_size)).ret len refl

  length-sent :
      (fd : ℤ) (h : History) (r : ℤ)
      → (os h (Call.read fd max_size)).ret ≡ r
      → is_positive r ≡ true
      → length (fill (array max_size) (os h (Call.read fd max_size)).bytes) ≡ 1024
  length-sent fd h (pos n) e p =
      let (le, got) = honest h (Call.read fd max_size) 1024 n refl e in
      omega (
        arith,
        length-fill (array max_size) (os h (Call.read fd max_size)).bytes,
        length-array 1024,
      )
  length-sent fd h (negsuc n) e p = cc

  send_round-FullMessages :
      (mq fd : ℤ) (h : History) → FullMessages h → FullMessages (send_round os mq fd h).1
  unfolding send_round
  send_round-FullMessages mq fd h v =
      ground (arith, length-sent fd h (os h (Call.read fd max_size)).ret refl)

  send_loop-FullMessages :
      (rounds : ℕ) (mq fd : ℤ) (h : History)
      → FullMessages h
      → FullMessages (send_loop os rounds mq fd h).1
  unfolding send_loop
  send_loop-FullMessages zero mq fd h v = v
  send_loop-FullMessages (suc rounds) mq fd h v =
      let v' = send_round-FullMessages mq fd h v in
      ground (arith, v', send_loop-FullMessages rounds mq fd (send_round os mq fd h).1 v')

  -- Whatever the file holds and however the calls fail, each message of the writer is either empty or
  -- as long as the reader's whole buffer.
  pub write_to_queue-FullMessages :
      (rounds : ℕ) (h : History) → FullMessages h → FullMessages (write_to_queue os rounds h).1
  unfolding write_to_queue close_both
  write_to_queue-FullMessages rounds h v =
      let line = Call.print "Thread WRITER starting..." [] in
      let h1 = (call os line h).1 in
      let mq = os h1 Call.mq_open in
      let h2 = (call os Call.mq_open h1).1 in
      let file = os h2 (Call.opens "test.dat") in
      ground
        (arith, send_loop-FullMessages rounds mq.ret file.ret ((Call.opens "test.dat", file) ∷ h2))

-- The unlinkings of the queue in a history.
abbrev pub unlinked : History → ℕ
unlinked [] = 0
unlinked ((Call.mq_unlink, r) ∷ h) = 1 + unlinked h
unlinked ((c, r) ∷ h) = unlinked h

-- Every `mq_receive` fails.
abbrev pub ReceiveFails : Os → Type 0
ReceiveFails os = (h : History) (mq : ℤ) → (os h (Call.mq_receive mq max_size)).ret ≡ negsuc 0

module _ (os : Os) (fails : ReceiveFails os) where
  receive_loop-spins :
      (rounds : ℕ) (mq : ℤ) (buffer : List ℕ) (h : History)
      → ((receive_loop os rounds mq buffer h).0 ≡ ok false)
        × (unlinked (receive_loop os rounds mq buffer h).1 ≡ unlinked h)
  unfolding receive_loop receive_round
  receive_loop-spins zero mq buffer h = (refl, refl)
  receive_loop-spins (suc rounds) mq buffer h =
      let r = os h (Call.mq_receive mq max_size) in
      let mid : History = (Call.mq_receive mq max_size, r) ∷ h in
      let line = Call.print "Receive message failed!" [] in
      ground (
        arith,
        fails h mq,
        receive_loop-spins rounds mq (fill buffer r.bytes) ((line, os mid line) ∷ mid),
      )

  -- While `mq_receive` fails the reader neither leaves its loop nor unlinks the queue that it has
  -- opened, however many rounds it makes.
  pub reader_spins_on_failure :
      (rounds : ℕ) (h : History)
      → let line = Call.print "Thread READER starting..." [] in
        is_negative (os ((line, os h line) ∷ h) Call.mq_open).ret ≡ false
        → ((read_from_queue os rounds h).0 ≡ ok tt)
          × (unlinked (read_from_queue os rounds h).1 ≡ unlinked h)
  unfolding read_from_queue
  reader_spins_on_failure rounds h opened =
      let line = Call.print "Thread READER starting..." [] in
      let h1 : History = (line, os h line) ∷ h in
      let mq = os h1 Call.mq_open in
      ground
        (arith, opened, receive_loop-spins rounds mq.ret (array max_size) ((Call.mq_open, mq) ∷ h1))
