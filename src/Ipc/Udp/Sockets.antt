-- ===== src/Ipc/Udp/Sockets.antt =====
-- Chapter 7/udp_example.cpp: the sockets that each process closes.
use c_programming_for_linux.Prelude.{
  ℕ, zero, suc, ◌+◌, ◌≡◌, ◌≢◌, refl, false, List, ◌∷◌, none, some, arith, inl, inr,
}
use c_programming_for_linux.Ipc.Os.{
  ℤ, is_negative, Call, Os, History, Outcome-cases, exited, datagram, call,
}
use c_programming_for_linux.Ipc.Buffer.{array}
use c_programming_for_linux.Ipc.Udp.{
  port, buf_size, die_roll, child_round, child_loop, close_and_exit, child, process_creator,
  exit_success,
}
use c_programming_for_linux.Ipc.Udp.Dice.{closed, parent_protocol}

child_round-closed :
    (os : Os) (sock : ℤ) (buffer : List ℕ) (h : History)
    → (closed (child_round os sock buffer h).1 ≡ closed h)
      × ((child_round os sock buffer h).0 ≢ exited 0)
unfolding child_round die_roll
child_round-closed os sock buffer h = (ground arith, λ e. ground arith)

child_loop-closed :
    (os : Os) (rounds : ℕ) (sock : ℤ) (buffer : List ℕ) (h : History)
    → (closed (child_loop os rounds sock buffer h).1 ≡ closed h)
      × ((child_loop os rounds sock buffer h).0 ≢ exited 0)
unfolding child_loop
child_loop-closed os zero sock buffer h = (refl, λ e. cc)
child_loop-closed os (suc rounds) sock buffer h =
    let here = child_round-closed os sock buffer h in
    elim (Outcome-cases (child_round os sock buffer h).0) [
      | inl (none, e) ↦ (ground (arith, e, here.0), λ f. ground (arith, e))
      | inl (some b, e) ↦
          let rest = child_loop-closed os rounds sock b (child_round os sock buffer h).1 in
          (ground (arith, e, here.0, rest.0), λ f. rest.1 (ground (arith, e, f)))
      | inr e ↦ (ground (arith, e, here.0), λ f. ground (arith, e, here.1))
    ]

child-closes :
    (os : Os) (rounds : ℕ) (h : History)
    → (child os rounds h).0 ≡ exited 0
    → closed (child os rounds h).1 ≡ closed h + 1
unfolding child close_and_exit
child-closes os rounds h e =
    let sock = os h (Call.socket datagram) in
    let h1 : History = (Call.socket datagram, sock) ∷ h in
    let h2 = (call os (Call.bind sock.ret port) h1).1 in
    let kept = child_loop-closed os rounds sock.ret (array buf_size) h2 in
    ground (arith, kept.0, kept.1)

-- Whichever process `fork` returns to, it ends with status 0 only after it has closed one socket; and
-- if `fork` fails it does not end with status 0.
pub exit_closes_socket :
    (os : Os) (rounds : ℕ) (h : History)
    → (process_creator os rounds h).0 ≡ exited exit_success
    → (closed (process_creator os rounds h).1 ≡ closed h + 1)
      × (is_negative (os h Call.fork).ret ≡ false)
unfolding process_creator
exit_closes_socket os rounds h e =
    let h1 : History = (Call.fork, os h Call.fork) ∷ h in
    ground (arith, (parent_protocol os h1), child-closes os rounds h1)
