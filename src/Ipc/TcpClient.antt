-- ===== src/Ipc/TcpClient.antt =====
-- Chapter 7/tcp_client.cpp: a client that is to send its process id and print the answer.
pub mod Answer
mod Examples
use c_programming_for_linux.Prelude.{
  ℕ, ◌≡◌, Bool, true, false, not, List, [], ◌∷◌, Option, none, if◌then◌else◌,
}
use c_programming_for_linux.Ipc.Os.{
  ℤ, pos, negsuc, is_negative, is_positive, is_minus_one, pos_part, stream, Call, Reply, Os, M,
  ◌>>=◌, ◌>>◌, return, throw, or_fault, call, opening_socket, connecting_socket, closing_socket,
}
use c_programming_for_linux.Ipc.Buffer.{array, fill, terminate, c_str}
use c_programming_for_linux.Ipc.Decimal.{to_string}

abbrev pub port : ℕ
port = 8080

abbrev pub buf_size : ℕ
buf_size = 16

module _ (os : Os) where
  -- The `recv` and what is printed of it.
  pub receive : ℤ → M (Unit {0})
  receive serv_sock = do
    b_recv ← call os (Call.recv serv_sock buf_size)
    if is_positive b_recv.ret
        then (do
          buffer ← or_fault (terminate (fill (array buf_size) b_recv.bytes) (pos_part b_recv.ret))
          call os (Call.print "Server response: " (c_str buffer))
          return tt)
        else (do call os (Call.print "Error sending to socket!" []); return tt)

  -- The exchange on a connected socket, with the characters of the `string_view` `req`; none is a view
  -- of a string that has been destroyed.
  pub exchange : Option (List ℕ) → ℤ → M (Unit {0})
  unfolding receive
  exchange view serv_sock = do
    req ← or_fault view
    call os (Call.print "Client request: " req)
    sent ← call os (Call.send serv_sock req)
    if is_negative sent.ret
        then (do call os (Call.print "Error receiving from socket!" []); return tt)
        else receive serv_sock
    res ← call os (Call.close serv_sock)
    if is_minus_one res.ret
        then throw closing_socket
        else (do call os (Call.print "Job done! Disconnecting." []); return tt)

  -- The string with the digits of the process id is destroyed where the declaration of `req` ends.
  pub main : M (Unit {0})
  unfolding exchange
  main = do
    serv ← call os (Call.socket stream)
    if is_negative serv.ret then throw opening_socket else (do
      res ← call os (Call.connect serv.ret port)
      if is_minus_one res.ret
          then throw connecting_socket
          else (do call os Call.getpid; exchange none serv.ret))
