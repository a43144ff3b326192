-- ===== src/Ipc/Udp.antt =====
-- Chapter 7/udp_example.cpp: a child process that throws dice on request, and its parent, which asks.
-- The child's endless loop runs for a number of rounds that is an argument.
pub mod Dice
pub mod Sockets
mod Examples
use c_programming_for_linux.Prelude.{
  ℕ, zero, suc, ◌+◌, ◌-◌, ◌%◌, ◌≡◌, Bool, true, false, ◌&&◌, not, List, [], ◌∷◌, Option, none, some,
  take, ltb, ◌==◌, if◌then◌else◌,
}
use c_programming_for_linux.Ipc.Os.{
  ℤ, pos, negsuc, is_negative, is_positive, is_minus_one, pos_part, datagram, Call, Reply, Os, M,
  ◌>>=◌, ◌>>◌, return, throw, exit, or_fault, call, opening_socket, binding_socket, closing_socket,
  sending, receiving, forking, undefined,
}
use c_programming_for_linux.Ipc.Buffer.{array, fill, terminate, c_str, codes, equal}

abbrev pub port : ℕ
port = 8072

abbrev pub buf_size : ℕ
buf_size = 16

pub stop : List ℕ
unfolding codes
stop = codes "No more requests!"

pub request : List ℕ
unfolding codes
request = codes "Throw dice!"

abbrev pub exit_success : ℕ
exit_success = 0

abbrev pub int_max : ℕ
int_max = 2147483647

-- What `cin` stores in an `int32_t` where this number is typed: the nearest number that fits.
pub to_int32 : ℤ → ℤ
to_int32 (pos n) = if ltb int_max n then pos int_max else pos n
to_int32 (negsuc n) = if ltb int_max n then negsuc int_max else negsuc n

-- `dice_rolls <= 0 and dice_rolls > 256`, and what it guards.
pub checked_rolls : ℤ → ℤ
checked_rolls dice_rolls =
    if not (is_positive dice_rolls) && ltb 256 (pos_part dice_rolls) then pos 0 else dice_rolls

module _ (os : Os) where
  -- `rand()` is at least 0.
  pub die_roll : M ℕ
  die_roll = do
    roll ← call os Call.rand
    let min : ℕ = 1
    let max : ℕ = 6
    return (pos_part roll.ret % (max - min + 1) + min)

  -- One round of the child: `none` is the `break`, and the buffer is kept for the next round. The
  -- `string_view` of the answer refers to a string that is destroyed where its declaration ends, so
  -- that `sendto` reads a destroyed object.
  pub child_round : ℤ → List ℕ → M (Option (List ℕ))
  unfolding die_roll
  child_round sockfd buffer = do
    bytes_received ← call os (Call.recvfrom sockfd buf_size)
    if is_negative bytes_received.ret then throw receiving else (do
      buffer' ←
          or_fault (terminate (fill buffer bytes_received.bytes) (pos_part bytes_received.ret))
      call os (Call.print "Request received: " (c_str buffer'))
      if equal (take (pos_part bytes_received.ret) request) (c_str buffer')
          then (do die_roll; undefined)
          else return none)

  -- Whether the loop has been left within so many rounds.
  pub child_loop : ℕ → ℤ → List ℕ → M Bool
  child_loop zero sockfd buffer = return false
  child_loop (suc rounds) sockfd buffer = do
    next ← child_round sockfd buffer
    elim next [ none ↦ return true | some buffer' ↦ child_loop rounds sockfd buffer' ]

  pub close_and_exit : ℤ → M (Unit {0})
  close_and_exit sockfd = do
    res ← call os (Call.close sockfd)
    if is_minus_one res.ret then throw closing_socket else exit exit_success

  pub child : ℕ → M (Unit {0})
  child rounds = do
    sockfd ← call os (Call.socket datagram)
    if is_negative sockfd.ret then throw opening_socket else (do
      bound ← call os (Call.bind sockfd.ret port)
      if is_negative bound.ret then throw binding_socket else (do
        left ← child_loop rounds sockfd.ret (array buf_size)
        if left then close_and_exit sockfd.ret else return tt))

  -- One throw: a request, and the answer if one comes.
  pub parent_round : ℤ → List ℕ → M (List ℕ)
  parent_round sockfd buffer = do
    b_sent ← call os (Call.sendto sockfd request)
    if is_negative b_sent.ret then throw sending else (do
      b_recv ← call os (Call.recvfrom sockfd buf_size)
      if is_positive b_recv.ret
          then (do
            buffer' ← or_fault (terminate (fill buffer b_recv.bytes) (pos_part b_recv.ret))
            call os (Call.print "Dice roll result for throw number " (c_str buffer'))
            return buffer')
          else return (fill buffer b_recv.bytes))

  -- The `for` from 1 to `dice_rolls`.
  pub parent_loop : ℕ → ℤ → List ℕ → M (Unit {0})
  parent_loop zero sockfd buffer = return tt
  parent_loop (suc rolls) sockfd buffer = do
    buffer' ← parent_round sockfd buffer
    parent_loop rolls sockfd buffer'

  -- The `i++` after the last round overflows if there is no larger `int`.
  pub after_loop : ℕ → M (Unit {0})
  after_loop rolls = if rolls == int_max then undefined else return tt

  pub parent : M (Unit {0})
  parent = do
    call os (Call.print "Choose a number of dice throws between 1 and 256." [])
    dice_rolls ← call os Call.cin
    sockfd ← call os (Call.socket datagram)
    if is_negative sockfd.ret then throw opening_socket else (do
      let rolls = pos_part (checked_rolls (to_int32 dice_rolls.ret))
      parent_loop rolls sockfd.ret (array buf_size)
      after_loop rolls
      call os (Call.sendto sockfd.ret stop)
      close_and_exit sockfd.ret)

  -- `process_creator`, in the process that `fork` returns to.
  pub process_creator : ℕ → M (Unit {0})
  process_creator rounds = do
    pid ← call os Call.fork
    if is_negative pid.ret
        then throw forking
        else if is_positive pid.ret
        then parent
        else child rounds
