-- ===== src/Coroutines/SocketStreams/Rounds.antt =====
-- Chapter 10/coroutine_socket.cpp: how often each coroutine is resumed.
use c_programming_for_linux.Prelude.{
  ℕ, suc, ◌+◌, ◌-◌, ◌*◌, ◌≤◌, ◌<◌, ◌≡◌, ◌≢◌, refl, ◌⊎◌, inl, inr, List, [], ◌∷◌, none, some, Bool,
  true, false, ◌||◌, if◌then◌else◌, arith, run, run_inv, run_completes,
}
use c_programming_for_linux.Ipc.Os.{ℤ, Call, History, Os}
use c_programming_for_linux.Ipc.Buffer.{equal, equal_self}
use c_programming_for_linux.Coroutines.SocketStreams.{
  Thread, server, client, ServerPc, ClientPc, State, threads_started, step, message, rounds,
}

-- The calls of `sendto`, those of them with other bytes than the message, and the calls of `recvfrom`
-- in a history.
abbrev pub sends : History → ℕ
sends [] = 0
sends ((Call.sendto fd bytes, r) ∷ h) = 1 + sends h
sends ((c, r) ∷ h) = sends h

abbrev pub strays : History → ℕ
strays [] = 0
strays ((Call.sendto fd bytes, r) ∷ h) = (if equal bytes message then 0 else 1) + strays h
strays ((c, r) ∷ h) = strays h

abbrev pub receives : History → ℕ
receives [] = 0
receives ((Call.recvfrom fd size, r) ∷ h) = 1 + receives h
receives ((c, r) ∷ h) = receives h

abbrev server_resumed : ServerPc → ℕ
server_resumed ServerPc.printing = 1
server_resumed _ = 0

abbrev client_resumed : ClientPc → ℕ
client_resumed ClientPc.yielding = 1
client_resumed ClientPc.printing = 1
client_resumed _ = 0

abbrev server_in_round : ServerPc → Bool
server_in_round ServerPc.resuming = true
server_in_round ServerPc.printing = true
server_in_round _ = false

abbrev client_in_round : ClientPc → Bool
client_in_round ClientPc.resuming = true
client_in_round ClientPc.yielding = true
client_in_round ClientPc.printing = true
client_in_round _ = false

module _ (os : Os) (sockfd : ℤ) where
  pub record Inv (s : State) : Type 0 where
    pub sent : sends s.history + 1 ≡ s.server_i + server_resumed s.server_pc
    pub message_only : strays s.history ≡ 0
    pub first : s.server_pc ≡ ServerPc.binding → s.server_i ≡ 1
    pub server_bound : s.server_i ≤ rounds + 1
    pub server_inside : server_in_round s.server_pc ≡ true → s.server_i ≤ rounds
    pub server_end : s.server_pc ≡ ServerPc.finished → s.exited ≡ false → s.server_i ≡ rounds + 1
    pub exit_early : s.exited ≡ true → (s.server_pc ≡ ServerPc.finished) × (s.server_i ≡ 1)
    pub received :
        s.faulted ≡ false → receives s.history + 1 ≡ s.client_i + client_resumed s.client_pc
    pub receive_bound : receives s.history ≤ rounds
    pub client_bound : s.client_i ≤ rounds + 1
    pub client_inside : client_in_round s.client_pc ≡ true → s.client_i ≤ rounds
    pub client_end : s.client_pc ≡ ClientPc.finished → s.faulted ≡ false → s.client_i ≡ rounds + 1
    pub fault_end : s.faulted ≡ true → s.client_pc ≡ ClientPc.finished

  server-Inv : (s s' : State) → Inv s → step os sockfd server s ≡ some s' → Inv s'
  unfolding step
  server-Inv s s' v e = ground (arith, equal_self message)

  client-Inv : (s s' : State) → Inv s → step os sockfd client s ≡ some s' → Inv s'
  unfolding step
  client-Inv s s' v e = ground arith

  step-Inv : (t : Thread) (s s' : State) → Inv s → step os sockfd t s ≡ some s' → Inv s'
  step-Inv server s s' v e = server-Inv s s' v e
  step-Inv client s s' v e = client-Inv s s' v e

  start-Inv : Inv threads_started
  start-Inv = record {
    sent = refl;
    message_only = refl;
    first = λ e. refl;
    server_bound = omega arith;
    server_inside = λ e. omega arith;
    server_end = λ e. ground (arith, e);
    exit_early = λ e. ground (arith, e);
    received = λ e. refl;
    receive_bound = omega arith;
    client_bound = omega arith;
    client_inside = λ e. omega arith;
    client_end = λ e. ground (arith, e);
    fault_end = λ e. ground (arith, e);
  }

  run-Inv : (ts : List Thread) → Inv (run (step os sockfd) ts threads_started)
  run-Inv ts = run_inv (step os sockfd) Inv step-Inv ts threads_started start-Inv

  -- The program has exited, or both threads have ended.
  abbrev pub ended : State → Bool
  ended s = s.exited || elim s.server_pc [
    | ServerPc.finished ↦ elim s.client_pc [ ClientPc.finished ↦ true | _ ↦ false ]
    | _ ↦ false
  ]

  abbrev server_left : ServerPc → ℕ
  server_left ServerPc.binding = 6
  server_left ServerPc.announcing = 5
  server_left ServerPc.testing = 4
  server_left ServerPc.resuming = 3
  server_left ServerPc.printing = 2
  server_left ServerPc.finished = 0

  abbrev client_left : ClientPc → ℕ
  client_left ClientPc.announcing = 6
  client_left ClientPc.testing = 5
  client_left ClientPc.resuming = 4
  client_left ClientPc.yielding = 3
  client_left ClientPc.printing = 2
  client_left ClientPc.finished = 0

  abbrev work_left : State → ℕ
  work_left s =
      8 * (rounds + 1 - s.server_i)
      + server_left s.server_pc
      + (8 * (rounds + 1 - s.client_i) + client_left s.client_pc)

  step-lowers-work_left :
      (t : Thread) (s s' : State)
      → Inv s
      → step os sockfd t s ≡ some s'
      → work_left s' < work_left s
  unfolding step
  step-lowers-work_left server s s' v e = ground arith
  step-lowers-work_left client s s' v e = ground arith

  server_moves :
      (s : State)
      → s.exited ≡ false
      → s.server_pc ≢ ServerPc.finished
      → step os sockfd server s ≢ none
  unfolding step
  server_moves s x n e = ground arith

  client_moves :
      (s : State)
      → s.exited ≡ false
      → s.client_pc ≢ ClientPc.finished
      → step os sockfd client s ≢ none
  unfolding step
  client_moves s x n e = ground arith

  server_at : (s : State) → (s.server_pc ≡ ServerPc.finished) ⊎ (s.server_pc ≢ ServerPc.finished)
  server_at s = ground arith

  some_moves : (s : State) → Inv s → ended s ≡ false → (t : Thread) × (step os sockfd t s ≢ none)
  some_moves s v h = elim (server_at s) [
    | inl e ↦ (client, client_moves s (ground (arith, h)) (λ f. ground (arith, h, e, f)))
    | inr n ↦ (server, server_moves s (ground (arith, h)) n)
  ]

  -- Under every schedule the server calls `sendto` at most ten times, each time with the message, and
  -- the client `recvfrom` at most ten times; a thread that ends makes exactly ten of these calls, unless
  -- it ends by the exit of a failed bind or by a read behind the end of the buffer; from every state
  -- that a schedule leads to, some further schedule brings the program to its end.
  pub ten_datagrams :
      (ts : List Thread)
      → let s = run (step os sockfd) ts threads_started in
        (sends s.history ≤ rounds)
        × (strays s.history ≡ 0)
        × (receives s.history ≤ rounds)
        × (s.server_pc ≡ ServerPc.finished → s.exited ≡ false → sends s.history ≡ rounds)
        × (s.client_pc ≡ ClientPc.finished → s.faulted ≡ false → receives s.history ≡ rounds)
        × ((us : List Thread) × (ended (run (step os sockfd) us s) ≡ true))
  ten_datagrams ts =
      let s = run (step os sockfd) ts threads_started in
      let v = run-Inv ts in
      (
        ground (arith, v.sent, v.server_bound, v.server_inside),
        v.message_only,
        v.receive_bound,
        λ e x. ground (arith, v.sent, v.server_end, e, x),
        λ e x. ground (arith, v.received, v.client_end, e, x),
        run_completes (step os sockfd) Inv ended work_left step-Inv step-lowers-work_left some_moves
            (suc (work_left s)) s (omega arith) v,
      )
