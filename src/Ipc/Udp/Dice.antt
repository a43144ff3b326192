-- ===== src/Ipc/Udp/Dice.antt =====
-- Chapter 7/udp_example.cpp: what the parent sends.
use c_programming_for_linux.Prelude.{
  ℕ, zero, suc, ◌+◌, ◌<◌, ◌≡◌, ◌≢◌, refl, false, List, [], ◌∷◌, arith, inl, inr, ◌&&◌,
  if◌then◌else◌, not,
}
use c_programming_for_linux.Ipc.Os.{
  ℤ, pos, negsuc, pos_part, is_negative, Call, Os, History, Outcome-cases, ok, exited, datagram,
}
use c_programming_for_linux.Ipc.Buffer.{array, equal_self, equal, codes}
use c_programming_for_linux.Ipc.Udp.{
  buf_size, request, stop, int_max, to_int32, checked_rolls, parent_round, parent_loop, after_loop,
  parent, close_and_exit,
}

-- The check of the number that was typed changes nothing, whatever that number is.
checked_rolls_unchecked : (dice_rolls : ℤ) → checked_rolls dice_rolls ≡ dice_rolls
unfolding checked_rolls
checked_rolls_unchecked (pos n) = ground arith
checked_rolls_unchecked (negsuc n) = ground arith

-- A number below the largest `int` is stored as typed, or as a number that makes no throw.
stored_rolls :
    (typed : ℤ)
    → pos_part (to_int32 typed) ≢ int_max
    → (pos_part typed < int_max) × (pos_part (to_int32 typed) ≡ pos_part typed)
unfolding to_int32
stored_rolls (pos n) h = (ground (arith, h), ground (arith, h))
stored_rolls (negsuc n) h = (ground (arith, h), ground (arith, h))

-- The requests sent with success, the calls that send the stop message, and the sockets closed in a
-- history.
abbrev pub sent_requests : History → ℕ
sent_requests [] = 0
sent_requests ((Call.sendto fd bytes, r) ∷ h) =
    (if equal bytes request && not (is_negative r.ret) then 1 else 0) + sent_requests h
sent_requests ((c, r) ∷ h) = sent_requests h

abbrev pub stops : History → ℕ
stops [] = 0
stops ((Call.sendto fd bytes, r) ∷ h) = (if equal bytes stop then 1 else 0) + stops h
stops ((c, r) ∷ h) = stops h

abbrev pub closed : History → ℕ
closed [] = 0
closed ((Call.close fd, r) ∷ h) = 1 + closed h
closed ((c, r) ∷ h) = closed h

texts_differ : (equal request stop ≡ false) × (equal stop request ≡ false)
unfolding request stop codes equal
texts_differ = (refl, refl)

parent_round-sends :
    (os : Os) (sock : ℤ) (buffer : List ℕ) (h : History) (b : List ℕ)
    → (parent_round os sock buffer h).0 ≡ ok b
    → (sent_requests (parent_round os sock buffer h).1 ≡ sent_requests h + 1)
      × (stops (parent_round os sock buffer h).1 ≡ stops h)
      × (closed (parent_round os sock buffer h).1 ≡ closed h)
unfolding parent_round
parent_round-sends os sock buffer h b e = ground (arith, e, equal_self request, texts_differ)

parent_round-goes_on :
    (os : Os) (sock : ℤ) (buffer : List ℕ) (h : History)
    → (parent_round os sock buffer h).0 ≢ exited 0
unfolding parent_round
parent_round-goes_on os sock buffer h e = ground arith

-- The loop does not end the process with status 0, and where it ends normally it has sent one request
-- for each throw.
pub one_request_per_throw :
    (os : Os) (rolls : ℕ) (sock : ℤ) (buffer : List ℕ) (h : History)
    → let h' = (parent_loop os rolls sock buffer h).1 in
      ((parent_loop os rolls sock buffer h).0 ≢ exited 0)
      × ((parent_loop os rolls sock buffer h).0 ≡ ok tt
          → (sent_requests h' ≡ sent_requests h + rolls)
            × (stops h' ≡ stops h)
            × (closed h' ≡ closed h))
unfolding parent_loop
one_request_per_throw os zero sock buffer h = (λ e. cc, λ e. (omega arith, refl, refl))
one_request_per_throw os (suc rolls) sock buffer h =
    elim (Outcome-cases (parent_round os sock buffer h).0) [
      | inl (b, e) ↦
          let rest = one_request_per_throw os rolls sock b (parent_round os sock buffer h).1 in
          let here = parent_round-sends os sock buffer h b e in
          (λ f. rest.0 (ground (arith, e, f)), λ f. ground (arith, e, here, rest.1, f))
      | inr e ↦ (
        λ f. ground (arith, e, parent_round-goes_on os sock buffer h, f),
        λ f. ground (arith, e, f),
      )
    ]

pub parent_protocol :
    (os : Os) (h : History)
    → let line = Call.print "Choose a number of dice throws between 1 and 256." [] in
      let typed = os ((line, os h line) ∷ h) Call.cin in
      (parent os h).0 ≡ exited 0
      → (pos_part typed.ret < int_max)
        × (sent_requests (parent os h).1 ≡ sent_requests h + pos_part typed.ret)
        × (stops (parent os h).1 ≡ stops h + 1)
        × (closed (parent os h).1 ≡ closed h + 1)
unfolding parent close_and_exit after_loop
parent_protocol os h e =
    let line = Call.print "Choose a number of dice throws between 1 and 256." [] in
    let h1 : History = (line, os h line) ∷ h in
    let typed = os h1 Call.cin in
    let h2 : History = (Call.cin, typed) ∷ h1 in
    let sock = os h2 (Call.socket datagram) in
    let h3 : History = (Call.socket datagram, sock) ∷ h2 in
    let rolls = pos_part (checked_rolls (to_int32 typed.ret)) in
    let sent = one_request_per_throw os rolls sock.ret (array buf_size) h3 in
    let stored = stored_rolls typed.ret in
    let unchecked = checked_rolls_unchecked (to_int32 typed.ret) in
    ground
      (arith, e, sent.0, sent.1, stored, unchecked, equal_self stop, texts_differ.0, texts_differ.1)
