-- ===== src/Coroutines/SocketStreams.antt =====
-- Chapter 10/coroutine_socket.cpp: the coroutines `send_to` and `recv_from`, which a server and a
-- client thread resume ten times each. A turn is one call of the system or the work of a thread up to
-- its next call; the threads share the history of the calls. `main` opens the socket before and closes
-- it after; `exit` in the server ends both.
pub mod Rounds
pub mod Texts
mod Examples
use Prim.Native.String.{String}
use c_programming_for_linux.Prelude.{
  ℕ, ◌+◌, ◌-◌, ◌%◌, ◌^◌, Bool, true, false, List, [], ◌∷◌, Option, none, some, ltb, leb,
  if◌then◌else◌, length,
}
use c_programming_for_linux.Ipc.Os.{ℤ, pos, negsuc, is_negative, Call, Reply, History, Os}
use c_programming_for_linux.Ipc.Buffer.{codes, array, fill, c_str}
use c_programming_for_linux.Ipc.Decimal.{to_string}

abbrev pub port : ℕ
port = 8080

abbrev pub buf_size : ℕ
buf_size = 256

abbrev pub rounds : ℕ
rounds = 10

pub message : List ℕ
unfolding codes
message = codes "This is a test!"

-- A `ssize_t` stored in the `size_t` of the promise: -1 is 2 ^ 64 - 1.
pub to_size : ℤ → ℕ
to_size (pos n) = n % 2 ^ 64
to_size (negsuc n) = 2 ^ 64 - 1 - n % 2 ^ 64

pub data Thread : Type 0 where
  server client : Thread

-- `testing` is the head of the loop; `resuming` the call of the generator, up to `co_yield`.
pub data ServerPc : Type 0 where
  binding announcing testing resuming printing finished : ServerPc

pub data ClientPc : Type 0 where
  announcing testing resuming yielding printing finished : ClientPc

-- `sent_data` and `recv_data` are `currValue` in the two promises, `tmp_buf` lives in the frame of
-- `recv_from`. `faulted`: a text without its zero was read to behind the end of the array.
pub record State : Type 0 where
  pub history : History
  pub server_pc : ServerPc
  pub server_i : ℕ
  pub sent_data : ℕ
  pub client_pc : ClientPc
  pub client_i : ℕ
  pub tmp_buf : List ℕ
  pub recv_data : List ℕ
  pub exited : Bool
  pub faulted : Bool

abbrev pub threads_started : State
threads_started = record {
  history = [];
  server_pc = ServerPc.binding;
  server_i = 1;
  sent_data = 0;
  client_pc = ClientPc.announcing;
  client_i = 1;
  tmp_buf = array buf_size;
  recv_data = [];
  exited = false;
  faulted = false;
}

-- The history after a call.
abbrev pub called : Os → Call → History → History
called os c h = (c, os h c) ∷ h

module _ (os : Os) (sockfd : ℤ) where
  pub server_step : ServerPc → State → Option State
  unfolding to_size
  server_step ServerPc.binding s =
      let h = called os (Call.bind sockfd port) s.history in
      if is_negative (os s.history (Call.bind sockfd port)).ret
      then some (record s {
        history = called os (Call.print "Bind failed" []) h;
        exited = true;
        server_pc = ServerPc.finished;
      })
      else some (record s { history = h; server_pc = ServerPc.announcing })
  server_step ServerPc.announcing s = some (record s {
    history = called os (Call.print "send_to():" []) s.history;
    server_pc = ServerPc.testing;
  })
  server_step ServerPc.testing s =
      if leb s.server_i rounds
      then some (record s { server_pc = ServerPc.resuming })
      else some (record s { server_pc = ServerPc.finished })
  server_step ServerPc.resuming s = some (record s {
    history = called os (Call.sendto sockfd message) s.history;
    sent_data = to_size (os s.history (Call.sendto sockfd message)).ret;
    server_pc = ServerPc.printing;
  })
  server_step ServerPc.printing s = some (record s {
    history = called os (Call.print " Bytes sent: " (to_string s.sent_data)) s.history;
    server_i = s.server_i + 1;
    server_pc = ServerPc.testing;
  })
  server_step ServerPc.finished s = none

  -- `co_yield tmp_buf.data()` makes a `string` of the bytes before the first zero.
  pub client_step : ClientPc → State → Option State
  client_step ClientPc.announcing s = some (record s {
    history = called os (Call.print "recv_from():" []) s.history;
    client_pc = ClientPc.testing;
  })
  client_step ClientPc.testing s =
      if leb s.client_i rounds
      then some (record s { client_pc = ClientPc.resuming })
      else some (record s { client_pc = ClientPc.finished })
  client_step ClientPc.resuming s = some (record s {
    history = called os (Call.recvfrom sockfd buf_size) s.history;
    tmp_buf = fill s.tmp_buf (os s.history (Call.recvfrom sockfd buf_size)).bytes;
    client_pc = ClientPc.yielding;
  })
  client_step ClientPc.yielding s =
      if ltb (length (c_str s.tmp_buf)) (length s.tmp_buf)
      then some (record s { recv_data = c_str s.tmp_buf; client_pc = ClientPc.printing })
      else some (record s { faulted = true; client_pc = ClientPc.finished })
  client_step ClientPc.printing s = some (record s {
    history = called os (Call.print " Message received: " s.recv_data) s.history;
    client_i = s.client_i + 1;
    client_pc = ClientPc.testing;
  })
  client_step ClientPc.finished s = none

  pub step : Thread → State → Option State
  unfolding server_step client_step
  step server s = if s.exited then none else server_step s.server_pc s
  step client s = if s.exited then none else client_step s.client_pc s
