-- ===== src/Ipc/MessageQueue.antt =====
-- Chapter 7/mq_example.cpp: a writer that sends a file over a POSIX message queue, and a reader. Both
-- endless loops run for a number of rounds that is an argument.
pub mod Messages
mod Examples
use c_programming_for_linux.Prelude.{
  ℕ, zero, suc, Bool, true, false, List, [], ◌∷◌, Option, none, some, if◌then◌else◌,
}
use c_programming_for_linux.Ipc.Os.{
  ℤ, is_negative, is_positive, is_minus_one, pos_part, Call, Reply, Os, M, ◌>>=◌, ◌>>◌, return,
  or_fault, call,
}
use c_programming_for_linux.Ipc.Buffer.{array, fill, terminate, c_str}

abbrev pub max_size : ℕ
max_size = 1024

module _ (os : Os) where
  -- One round of the reader, over the buffer that it keeps: `none` is the `break`.
  pub receive_round : ℤ → List ℕ → M (Option (List ℕ))
  receive_round mq buffer = do
    bytes_read ← call os (Call.mq_receive mq max_size)
    if is_positive bytes_read.ret
        then (do
          buffer' ← or_fault (terminate (fill buffer bytes_read.bytes) (pos_part bytes_read.ret))
          call os (Call.print "Received: " (c_str buffer'))
          return (some buffer'))
        else if is_minus_one bytes_read.ret
        then (do
          call os (Call.print "Receive message failed!" [])
          return (some (fill buffer bytes_read.bytes)))
        else (do
          call os (Call.print "***Receiving ends***" [])
          call os (Call.mq_close mq)
          return none)

  -- Whether the loop has been left within so many rounds.
  pub receive_loop : ℕ → ℤ → List ℕ → M Bool
  receive_loop zero mq buffer = return false
  receive_loop (suc rounds) mq buffer = do
    next ← receive_round mq buffer
    elim next [ none ↦ return true | some buffer' ↦ receive_loop rounds mq buffer' ]

  pub read_from_queue : ℕ → M (Unit {0})
  read_from_queue rounds = do
    call os (Call.print "Thread READER starting..." [])
    mq ← call os Call.mq_open
    if is_negative mq.ret
        then (do
          call os (Call.print "Receiver: Failed to load queue: " [])
          call os Call.mq_unlink
          return tt)
        else (do
          left ← receive_loop rounds mq.ret (array max_size)
          if left then (do call os Call.mq_unlink; return tt) else return tt)

  pub report_unsent : Reply → M (Unit {0})
  report_unsent b_sent =
      if is_minus_one b_sent.ret
      then (do call os (Call.print "Sent failed!" []); return tt)
      else return tt

  -- One round of the writer: `true` is the `break`. The whole buffer is sent, not what was read.
  pub send_round : ℤ → ℤ → M Bool
  unfolding report_unsent
  send_round mq fd = do
    bytes_to_send ← call os (Call.read fd max_size)
    if is_positive bytes_to_send.ret
        then (do
          b_sent ← call os (Call.mq_send mq (fill (array max_size) bytes_to_send.bytes))
          report_unsent b_sent
          return false)
        else if is_negative bytes_to_send.ret
        then (do call os (Call.print "Reading from file failed!" []); return false)
        else (do
          call os (Call.print "Sending ends...." [])
          b_sent ← call os (Call.mq_send mq [])
          report_unsent b_sent
          return true)

  pub send_loop : ℕ → ℤ → ℤ → M Bool
  send_loop zero mq fd = return false
  send_loop (suc rounds) mq fd = do
    left ← send_round mq fd
    elim left [ true ↦ return true | false ↦ send_loop rounds mq fd ]

  pub close_both : ℤ → ℤ → M (Unit {0})
  close_both mq fd = do call os (Call.close fd); call os (Call.mq_close mq); return tt

  pub write_to_queue : ℕ → M (Unit {0})
  write_to_queue rounds = do
    call os (Call.print "Thread WRITER starting..." [])
    mq ← call os Call.mq_open
    if is_negative mq.ret
        then (do call os (Call.print "Sender: Failed to load queue: " []); return tt)
        else (do
          file ← call os (Call.opens "test.dat")
          if is_positive file.ret
              then (do
                left ← send_loop rounds mq.ret file.ret
                if left then close_both mq.ret file.ret else return tt)
              else (do call os (Call.print "Error opening file" []); close_both mq.ret file.ret))
