-- ===== src/Coroutines/SocketStreams/Texts.antt =====
-- Chapter 10/coroutine_socket.cpp: what the client prints of the datagrams.
use c_programming_for_linux.Prelude.{
  ℕ, ◌≤◌, ◌<◌, ◌≡◌, ◌≢◌, refl, sym, List, [], ◌∷◌, ◌++◌, some, Bool, true, false, arith, run,
  run_inv, length, drop, All, length-append,
}
use c_programming_for_linux.Ipc.Os.{ℤ, is_negative, Call, History, Os}
use c_programming_for_linux.Ipc.Buffer.{array, length-array, fill, c_str}
use c_programming_for_linux.Coroutines.SocketStreams.{
  Thread, server, client, ClientPc, State, threads_started, step, buf_size,
}

-- Bytes without a zero are read on into what follows them.
c_str-append :
    (bytes rest : List ℕ) → All (λ b. b ≢ 0) bytes → c_str (bytes ++ rest) ≡ bytes ++ c_str rest
unfolding c_str
c_str-append [] rest h = refl
c_str-append (b ∷ bytes) rest h = ground (arith, h.0, c_str-append bytes rest h.1)

c_str-array : c_str (array buf_size) ≡ []
unfolding c_str array
c_str-array = refl

fill-nothing : (buffer bytes : List ℕ) → bytes ≡ [] → fill buffer bytes ≡ buffer
unfolding fill
fill-nothing buffer bytes e = rw e refl

abbrev holds_text : ClientPc → Bool
holds_text ClientPc.yielding = false
holds_text _ = true

-- The last text yielded is what the buffer holds, up to a zero that is there.
record HoldsText (s : State) : Type 0 where
  text : s.faulted ≡ false → holds_text s.client_pc ≡ true → s.recv_data ≡ c_str s.tmp_buf
  ended :
      s.faulted ≡ false
      → holds_text s.client_pc ≡ true
      → length (c_str s.tmp_buf) < length s.tmp_buf
  stopped : s.faulted ≡ true → s.client_pc ≡ ClientPc.finished

module _ (os : Os) (sockfd : ℤ) where
  step-HoldsText :
      (t : Thread) (s s' : State) → HoldsText s → step os sockfd t s ≡ some s' → HoldsText s'
  unfolding step
  step-HoldsText server s s' v e = ground arith
  step-HoldsText client s s' v e = ground arith

  start-HoldsText : HoldsText threads_started
  start-HoldsText = record {
    text = λ f e. sym c_str-array;
    ended = λ f e. ground (arith, c_str-array, length-array buf_size);
    stopped = λ e. ground (arith, e);
  }

  two_turns :
      (s : State)
      → s.exited ≡ false
      → s.client_pc ≡ ClientPc.resuming
      → let buffer = fill s.tmp_buf (os s.history (Call.recvfrom sockfd buf_size)).bytes in
        let s' = run (step os sockfd) (client ∷ client ∷ []) s in
        (length (c_str buffer) < length buffer
          → (s'.recv_data ≡ c_str buffer) × (s'.faulted ≡ s.faulted))
        × (length (c_str buffer) ≡ length buffer → s'.faulted ≡ true)
  unfolding run step
  two_turns s x e = (λ h. ground arith, λ h. ground arith)

  repeats_at :
      (s : State)
      → HoldsText s
      → s.exited ≡ false
      → s.client_pc ≡ ClientPc.resuming
      → (os s.history (Call.recvfrom sockfd buf_size)).bytes ≡ []
      → let s' = run (step os sockfd) (client ∷ client ∷ []) s in
        (s'.recv_data ≡ s.recv_data) × (s'.faulted ≡ false)
  repeats_at s v x at nothing =
      let same =
        fill-nothing s.tmp_buf (os s.history (Call.recvfrom sockfd buf_size)).bytes nothing in
      let clear : s.faulted ≡ false = ground (arith, v.stopped, at) in
      let text = v.text clear (ground (arith, at)) in
      let short = v.ended clear (ground (arith, at)) in
      let turns = (two_turns s x at).0 (rw same short) in
      (ground (arith, turns.0, same, text), ground (arith, turns.1, clear))

  -- If the system puts nothing into the buffer of a call that fails, then under every schedule a
  -- client whose `recvfrom` fails yields the text that it yielded before, the empty one at first.
  pub failed_receive_repeats :
      ((h : History) (c : Call) → is_negative (os h c).ret ≡ true → (os h c).bytes ≡ [])
      → (ts : List Thread)
      → let s = run (step os sockfd) ts threads_started in
        let s' = run (step os sockfd) (client ∷ client ∷ []) s in
        s.exited ≡ false
        → s.client_pc ≡ ClientPc.resuming
        → is_negative (os s.history (Call.recvfrom sockfd buf_size)).ret ≡ true
        → (s'.recv_data ≡ s.recv_data) × (s'.faulted ≡ false)
  failed_receive_repeats untouched ts x at fails =
      let s = run (step os sockfd) ts threads_started in
      repeats_at s
        (run_inv (step os sockfd) HoldsText step-HoldsText ts threads_started start-HoldsText) x at
        (untouched s.history (Call.recvfrom sockfd buf_size) fails)

  -- The text yielded for a datagram without a zero that fits into the buffer is the datagram followed
  -- by what the buffer still holds behind it, up to a zero; if no zero is there, the client reads
  -- behind the end of the buffer.
  pub datagram_text :
      (s : State)
      → s.exited ≡ false
      → s.faulted ≡ false
      → s.client_pc ≡ ClientPc.resuming
      → let bytes = (os s.history (Call.recvfrom sockfd buf_size)).bytes in
        let tail = drop (length bytes) s.tmp_buf in
        let s' = run (step os sockfd) (client ∷ client ∷ []) s in
        All (λ b. b ≢ 0) bytes
        → length bytes ≤ length s.tmp_buf
        → (length (c_str tail) < length tail
            → (s'.recv_data ≡ bytes ++ c_str tail) × (s'.faulted ≡ false))
          × (length (c_str tail) ≡ length tail → s'.faulted ≡ true)
  unfolding fill
  datagram_text s x clear at nonzero fits =
      let bytes = (os s.history (Call.recvfrom sockfd buf_size)).bytes in
      let tail = drop (length bytes) s.tmp_buf in
      let shown = c_str-append bytes tail nonzero in
      let long = length-append bytes (c_str tail) in
      let whole = length-append bytes tail in
      let turns = two_turns s x at in
      (
        λ h. ground (arith, shown, long, whole, h, turns.0, clear),
        λ h. ground (arith, shown, long, whole, h, turns.1),
      )
