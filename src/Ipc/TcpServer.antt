-- ===== src/Ipc/TcpServer.antt =====
-- Chapter 7/tcp_server.cpp: a server that answers each client with its process id. `exitHandler`,
-- which ends the process on SIGINT, may stop the loop after any number of rounds: the number of
-- rounds is an argument. `tcp_client.cpp` is in TcpClient.
pub mod Rounds
pub mod Startup
mod Examples
use c_programming_for_linux.Prelude.{
  ℕ, zero, suc, ◌+◌, ◌≡◌, Bool, true, false, List, [], ◌∷◌, Option, none, some, ltb, ◌||◌,
  if◌then◌else◌,
}
use Prim.Native.String.{String}
use c_programming_for_linux.Ipc.Os.{
  ℤ, pos, negsuc, is_negative, is_positive, is_minus_one, pos_part, stream, Call, Reply, Os, M,
  ◌>>=◌, ◌>>◌, return, throw, or_fault, call, opening_socket, binding_socket, closing_socket,
  undefined, Outcome, exit,
}
use c_programming_for_linux.Ipc.Buffer.{array, fill, terminate, c_str}

abbrev pub port : ℕ
port = 8080

abbrev pub buf_size : ℕ
buf_size = 256

abbrev pub backlog : ℕ
backlog = 5

abbrev pub sig_max : ℕ
sig_max = 128

-- The status that `exitHandler` ends the process with.
pub exit_handler : {A : Type 0} → ℕ → Os → M A
exit_handler sig os = do
  call os (Call.print "Exit command called - terminating server!" [])
  exit (sig_max + sig)

module _ (os : Os) where
  -- `buffer.data()[b_recv] = '\0'` and the answer, once something has been received. The `string_view`
  -- of the answer refers to a string that is destroyed where its declaration ends, so that the next
  -- statement, which prints it, reads a destroyed object.
  unfoldable pub respond : Reply → M (Unit {0})
  respond received = do
    buffer ← or_fault (terminate (fill (array buf_size) received.bytes) (pos_part received.ret))
    call os (Call.print "Client request: " (c_str buffer))
    call os Call.getpid
    undefined

  -- What the server does with a client that it has accepted.
  pub handle_client : ℤ → M (Unit {0})
  unfolding respond
  handle_client client_sock = do
    call os (Call.print "Client connected." [])
    received ← call os (Call.recv client_sock buf_size)
    if is_positive received.ret
        then respond received
        else (do call os (Call.print "Error receiving from socket!" []); return tt)
    res ← call os (Call.close client_sock)
    if is_minus_one res.ret then throw closing_socket else return tt

  -- One round of the endless loop.
  pub round : ℤ → M (Unit {0})
  unfolding handle_client
  round server_sock = do
    client ← call os (Call.accept server_sock)
    if is_positive client.ret
        then handle_client client.ret
        else (do call os (Call.print "Client connection failed" []); return tt)

  pub serve : ℕ → ℤ → M (Unit {0})
  serve zero server_sock = return tt
  serve (suc rounds) server_sock = do round server_sock; serve rounds server_sock

  -- `main`, for so many rounds.
  pub main : ℕ → M (Unit {0})
  main rounds = do
    server ← call os (Call.socket stream)
    if is_negative server.ret then throw opening_socket else (do
      bound ← call os (Call.bind server.ret port)
      if is_negative bound.ret then throw binding_socket else (do
        listening ← call os (Call.listen server.ret backlog)
        if is_positive listening.ret || is_negative listening.ret
            then (do call os (Call.print "Cannot accept connection" []); return tt)
            else return tt
        call os (Call.print "Listening..." [])
        serve rounds server.ret))
