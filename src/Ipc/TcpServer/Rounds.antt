-- ===== src/Ipc/TcpServer/Rounds.antt =====
-- Chapter 7/tcp_server.cpp: what the rounds do with the clients that they accept.
use c_programming_for_linux.Prelude.{
  ℕ, zero, suc, ◌+◌, ◌≡◌, ◌⊎◌, refl, [], ◌∷◌, arith, Option-cases, inl, inr, if◌then◌else◌,
}
use c_programming_for_linux.Ipc.Os.{
  ℤ, is_positive, is_minus_one, pos_part, Call, Reply, Os, History, Outcome, ok, thrown, fault,
  closing_socket,
}
use c_programming_for_linux.Ipc.Buffer.{array, fill, terminate}
use c_programming_for_linux.Ipc.TcpServer.{buf_size, respond, handle_client, round, serve}

-- The clients accepted, the requests received, and the sockets closed, or not, in a history.
abbrev pub accepted : History → ℕ
accepted [] = 0
accepted ((Call.accept fd, r) ∷ h) = (if is_positive r.ret then 1 else 0) + accepted h
accepted ((c, r) ∷ h) = accepted h

abbrev pub requests : History → ℕ
requests [] = 0
requests ((Call.recv fd size, r) ∷ h) = (if is_positive r.ret then 1 else 0) + requests h
requests ((c, r) ∷ h) = requests h

abbrev pub closed : History → ℕ
closed [] = 0
closed ((Call.close fd, r) ∷ h) = 1 + closed h
closed ((c, r) ∷ h) = closed h

abbrev pub failed_closes : History → ℕ
failed_closes [] = 0
failed_closes ((Call.close fd, r) ∷ h) = (if is_minus_one r.ret then 1 else 0) + failed_closes h
failed_closes ((c, r) ∷ h) = failed_closes h

-- How calls from `h` to `h'` end: at a request, at a close that fails, or normally. All clients that
-- were accepted have been closed, but the one with the request.
abbrev pub Served : Outcome (Unit {0}) → History → History → Type 0
Served o h h' =
    (o ≡ fault)
      × (requests h' ≡ requests h + 1)
      × (failed_closes h' ≡ failed_closes h)
      × (accepted h' + closed h ≡ closed h' + accepted h + 1)
    ⊎ (o ≡ thrown closing_socket)
      × (requests h' ≡ requests h)
      × (failed_closes h' ≡ failed_closes h + 1)
      × (accepted h' + closed h ≡ closed h' + accepted h)
    ⊎ (o ≡ ok tt)
      × (requests h' ≡ requests h)
      × (failed_closes h' ≡ failed_closes h)
      × (accepted h' + closed h ≡ closed h' + accepted h)

module _ (os : Os) where
  respond_faults :
      (r : Reply) (h : History)
      → ((respond os r h).0 ≡ fault)
        × (accepted (respond os r h).1 ≡ accepted h)
        × (requests (respond os r h).1 ≡ requests h)
        × (failed_closes (respond os r h).1 ≡ failed_closes h)
        × (closed (respond os r h).1 ≡ closed h)
  unfolding respond
  respond_faults r h =
      elim (Option-cases (terminate (fill (array buf_size) r.bytes) (pos_part r.ret))) [
        | inl e ↦ rw (e, respond) (refl, refl, refl, refl, refl)
        | inr (buffer, e) ↦ rw (e, respond) (refl, refl, refl, refl, refl)
      ]

  -- The history after the line that announces the client.
  abbrev announced : History → History
  announced h = let c = Call.print "Client connected." [] in (c, os h c) ∷ h

  handle_client-outcome :
      (client : ℤ) (h : History)
      → let o = (handle_client os client h).0 in
        let h' = (handle_client os client h).1 in
        ((o ≡ fault)
            × (requests h' ≡ requests h + 1)
            × (failed_closes h' ≡ failed_closes h)
            × (closed h' ≡ closed h)
          ⊎ (o ≡ thrown closing_socket)
            × (requests h' ≡ requests h)
            × (failed_closes h' ≡ failed_closes h + 1)
            × (closed h' ≡ closed h + 1)
          ⊎ (o ≡ ok tt)
            × (requests h' ≡ requests h)
            × (failed_closes h' ≡ failed_closes h)
            × (closed h' ≡ closed h + 1))
        × (accepted h' ≡ accepted h)
  unfolding handle_client
  handle_client-outcome client h =
      let r = os (announced h) (Call.recv client buf_size) in
      ground (arith, respond_faults r ((Call.recv client buf_size, r) ∷ announced h))

  pub round-Served :
      (server : ℤ) (h : History) → Served (round os server h).0 h (round os server h).1
  unfolding round
  round-Served server h =
      let client = os h (Call.accept server) in
      ground (arith, handle_client-outcome client.ret ((Call.accept server, client) ∷ h))

  pub serves_until_request :
      (rounds : ℕ) (server : ℤ) (h : History)
      → Served (serve os rounds server h).0 h (serve os rounds server h).1
  unfolding serve
  serves_until_request zero server h = inr (inr (refl, omega arith, omega arith, omega arith))
  serves_until_request (suc rounds) server h =
      ground
        (arith, round-Served server h, serves_until_request rounds server (round os server h).1)
