-- ===== src/Ipc/TcpServer/Startup.antt =====
-- Chapter 7/tcp_server.cpp: how the server starts and with which exceptions it ends.
use c_programming_for_linux.Prelude.{ℕ, ◌≡◌, ◌↔◌, ◌⊎◌, true, false, [], ◌∷◌, arith}
use c_programming_for_linux.Ipc.Os.{
  ℤ, is_negative, Call, Os, History, ok, thrown, fault, call, stream, opening_socket,
  binding_socket, closing_socket,
}
use c_programming_for_linux.Ipc.TcpServer.{port, backlog, serve, main}
use c_programming_for_linux.Ipc.TcpServer.Rounds.{serves_until_request}

module _ (os : Os) where
  serve-outcome :
      (rounds : ℕ) (server : ℤ) (h : History)
      → let o = (serve os rounds server h).0 in
        (o ≡ fault) ⊎ (o ≡ ok tt) ⊎ (o ≡ thrown closing_socket)
  serve-outcome rounds server h = ground (arith, serves_until_request os rounds server h)

  -- The server ends with a `system_error` of `socket` exactly if `socket` fails, and with one of
  -- `bind` exactly if `bind` fails on the socket that it got; a `listen` that fails ends nothing.
  pub server_startup :
      (rounds : ℕ) (h : History)
      → let server = os h (Call.socket stream) in
        let h1 : History = (Call.socket stream, server) ∷ h in
        let o = (main os rounds h).0 in
        ((o ≡ thrown opening_socket) ↔ (is_negative server.ret ≡ true))
        × ((o ≡ thrown binding_socket) ↔ (
            (is_negative server.ret ≡ false)
            × (is_negative (os h1 (Call.bind server.ret port)).ret ≡ true)))
  unfolding main
  server_startup rounds h =
      let server = os h (Call.socket stream) in
      let h1 : History = (Call.socket stream, server) ∷ h in
      let h2 = (call os (Call.bind server.ret port) h1).1 in
      let h3 = (call os (Call.listen server.ret backlog) h2).1 in
      let warned = (call os (Call.print "Cannot accept connection" []) h3).1 in
      let line = Call.print "Listening..." [] in
      let served = serve-outcome rounds server.ret (call os line h3).1 in
      let served' = serve-outcome rounds server.ret (call os line warned).1 in
      (
        (λ e. ground (arith, served, served'), λ e. ground arith),
        (λ e. ground (arith, served, served'), λ e. ground arith),
      )
