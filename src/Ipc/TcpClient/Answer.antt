-- ===== src/Ipc/TcpClient/Answer.antt =====
-- Chapter 7/tcp_client.cpp: what the client prints, and when its buffer is too small.
use c_programming_for_linux.Prelude.{
  ℕ, ◌+◌, ◌≤◌, ◌<◌, ◌^◌, ◌≡◌, ◌≢◌, ◌↔◌, ◌⊎◌, inl, refl, List, Option, none, some, [], ◌∷◌, length,
  arith, if◌then◌else◌,
}
use c_programming_for_linux.Ipc.Os.{
  ℤ, pos, negsuc, is_negative, Call, Os, History, ok, thrown, connecting_socket, closing_socket,
  fault, FillsBuffers, call,
}
use c_programming_for_linux.Ipc.Buffer.{
  array, length-array, fill, length-fill, terminate_iff, c_str-fill,
}
use c_programming_for_linux.Ipc.Decimal.{
  to_string, to_string-All-ne-zero, length-to_string-le, length-to_string-pos,
}
use c_programming_for_linux.Ipc.TcpClient.{buf_size, receive, exchange, main}

module _ (os : Os) (honest : FillsBuffers os) where
  length-answer :
      (sock : ℤ) (h : History) (n : ℕ)
      → (os h (Call.recv sock buf_size)).ret ≡ pos n
      → (n ≤ 16)
        × (length (os h (Call.recv sock buf_size)).bytes ≡ n)
        × (length (fill (array buf_size) (os h (Call.recv sock buf_size)).bytes) ≡ 16)
  length-answer sock h n e =
      let (le, len) = honest h (Call.recv sock buf_size) 16 n refl e in
      (
        le,
        len,
        omega (
          arith,
          length-fill (array buf_size) (os h (Call.recv sock buf_size)).bytes,
          length-array 16,
        ),
      )

  -- The digits of a number that leave room for a zero are printed as they came.
  pub prints_digits :
      (sock : ℤ) (h : History) (pid : ℕ)
      → length (to_string pid) < buf_size
      → (os h (Call.recv sock buf_size)).ret ≡ pos (length (to_string pid))
      → (os h (Call.recv sock buf_size)).bytes ≡ to_string pid
      → let line = Call.print "Server response: " (to_string pid) in
        let r = os h (Call.recv sock buf_size) in
        let mid = (Call.recv sock buf_size, r) ∷ h in
        receive os sock h ≡ (ok tt, (line, os mid line) ∷ mid)
  unfolding receive
  prints_digits sock h pid short ret bytes =
      let answer = to_string pid in
      let len = length-fill (array buf_size) answer in
      let size = length-array 16 in
      let room_left = (terminate_iff (fill (array buf_size) answer) (length answer)).1 in
      let shown = c_str-fill (array buf_size) answer (to_string-All-ne-zero pid) in
      ground (
        arith,
        length-to_string-pos pid,
        ret,
        bytes,
        room_left (omega (arith, len)),
        shown (omega arith),
      )

  -- If the server answers with a number of at most 15 digits, the client prints exactly its digits.
  pub prints_number :
      (sock : ℤ) (h : History) (pid : ℕ)
      → pid < 10 ^ 15
      → (os h (Call.recv sock buf_size)).ret ≡ pos (length (to_string pid))
      → (os h (Call.recv sock buf_size)).bytes ≡ to_string pid
      → let line = Call.print "Server response: " (to_string pid) in
        let r = os h (Call.recv sock buf_size) in
        let mid = (Call.recv sock buf_size, r) ∷ h in
        receive os sock h ≡ (ok tt, (line, os mid line) ∷ mid)
  prints_number sock h pid small ret bytes =
      prints_digits sock h pid (omega (arith, length-to_string-le 14 pid small)) ret bytes

  receive-fault :
      (sock : ℤ) (h : History) (r : ℤ)
      → (os h (Call.recv sock buf_size)).ret ≡ r
      → ((receive os sock h).0 ≡ fault) ↔ (r ≡ pos buf_size)
  unfolding receive
  receive-fault sock h (pos n) e =
      let (le, len, size) = length-answer sock h n e in
      let (full, left) =
        terminate_iff (fill (array buf_size) (os h (Call.recv sock buf_size)).bytes) n in
      (λ f. ground arith, λ f. ground arith)
  receive-fault sock h (negsuc n) e = (λ f. ground arith, λ f. ground arith)

  -- The terminating zero of the answer is written behind the end of the buffer exactly if the answer
  -- fills the buffer.
  pub answer_overruns_iff_full :
      (sock : ℤ) (h : History)
      → ((receive os sock h).0 ≡ fault) ↔ ((os h (Call.recv sock buf_size)).ret ≡ pos buf_size)
  answer_overruns_iff_full sock h = receive-fault sock h (os h (Call.recv sock buf_size)).ret refl

-- The sockets opened, and closed, in a history.
abbrev pub opened : History → ℕ
opened [] = 0
opened ((Call.socket kind, r) ∷ h) = (if is_negative r.ret then 0 else 1) + opened h
opened ((c, r) ∷ h) = opened h

abbrev pub closed : History → ℕ
closed [] = 0
closed ((Call.close fd, r) ∷ h) = 1 + closed h
closed ((c, r) ∷ h) = closed h

module _ (os : Os) where
  receive-quiet :
      (sock : ℤ) (h : History)
      → (opened (receive os sock h).1 ≡ opened h)
        × (closed (receive os sock h).1 ≡ closed h)
        × (((receive os sock h).0 ≡ fault) ⊎ ((receive os sock h).0 ≡ ok tt))
  unfolding receive
  receive-quiet sock h = ground arith

  -- Whatever the request is, an exchange that meets no undefined behaviour closes the socket, also
  -- where it ends because that fails.
  pub exchange-closes :
      (view : Option (List ℕ)) (sock : ℤ) (h : History)
      → let o = (exchange os view sock h).0 in
        ((o ≡ fault) ⊎ (o ≡ ok tt) ⊎ (o ≡ thrown closing_socket))
        × (o ≢ fault
            → (opened (exchange os view sock h).1 ≡ opened h)
              × (closed (exchange os view sock h).1 ≡ closed h + 1))
  unfolding exchange
  exchange-closes none sock h = (inl refl, λ f. absurd (f refl))
  exchange-closes (some req) sock h =
      let h2 = (call os (Call.print "Client request: " req) h).1 in
      let quiet = receive-quiet sock (call os (Call.send sock req) h2).1 in
      (ground (arith, quiet), λ f. ground (arith, quiet))

  -- A client never ends normally: it ends with an exception where it gets no socket, or cannot connect,
  -- when it leaves its socket open, and else in undefined behaviour.
  pub client_fails :
      (h : History)
      → ((main os h).0 ≢ ok tt)
        × ((main os h).0 ≡ thrown connecting_socket
            → opened (main os h).1 + closed h ≡ closed (main os h).1 + opened h + 1)
  unfolding main exchange
  client_fails h = (λ e. ground (arith, e), λ e. ground (arith, e))
