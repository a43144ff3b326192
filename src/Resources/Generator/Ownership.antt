-- ===== src/Resources/Generator/Ownership.antt =====
-- Chapter 10/coroutine_socket.cpp: every live frame has one owner, whatever a program does.
use c_programming_for_linux.Prelude.{
  ℕ, ◌<◌, List, [], ◌∷◌, none, ◌==◌, ltb, arith, length, length-set, Bool-cases, inl, inr, ltb→lt,
}
use c_programming_for_linux.Resources.Handles.{
  State, IsOwned, acquire-IsOwned, release-IsOwned, pass-IsOwned, get-set_self, copy-IsOwned,
}
use c_programming_for_linux.Resources.Generator.{
  Op, create, move_construct, move_assign, destroy, construct, construct_from, destruct,
  assign_from, step, run,
}

destruct-IsOwned :
    (this : ℕ) (s : State) → this < length s.vars → IsOwned s → IsOwned (destruct this s)
unfolding destruct
destruct-IsOwned this s h v = release-IsOwned s this h v

assign_from-IsOwned :
    (this other : ℕ) (s : State)
    → this < length s.vars
    → other < length s.vars
    → IsOwned s
    → IsOwned (assign_from this other s)
unfolding assign_from destruct
assign_from-IsOwned this other s h k v = elim (Bool-cases (this == other)) [
  | inl e ↦ rw e v
  | inr e ↦ rw e (
      pass-IsOwned (destruct this s) this other (omega (arith, length-set s.vars this none))
        (omega (arith, length-set s.vars this none)) (get-set_self s.vars this)
        (destruct-IsOwned this s h v))
]

step-IsOwned : (s : State) (op : Op) → IsOwned s → IsOwned (step s op)
unfolding step construct construct_from
step-IsOwned s create v = acquire-IsOwned s v
step-IsOwned s (move_construct other) v = elim (Bool-cases (ltb other (length s.vars))) [
  | inl e ↦ rw e (copy-IsOwned s other (ltb→lt other (length s.vars) e) v)
  | inr e ↦ rw e v
]
step-IsOwned s (move_assign this other) v = elim (Bool-cases (ltb this (length s.vars))) [
  | inl e ↦ elim (Bool-cases (ltb other (length s.vars))) [
    | inl f ↦
        rw (e, f)
          (assign_from-IsOwned this other s (ltb→lt this (length s.vars) e)
            (ltb→lt other (length s.vars) f) v)
    | inr f ↦ rw (e, f) v
  ]
  | inr e ↦ rw e v
]
step-IsOwned s (destroy this) v = elim (Bool-cases (ltb this (length s.vars))) [
  | inl e ↦ rw e (destruct-IsOwned this s (ltb→lt this (length s.vars) e) v)
  | inr e ↦ rw e v
]

-- From a state in which each live frame is held by exactly one variable, no frame that is not live
-- by any, and none was destroyed twice, the same holds after every sequence of operations.
pub frames_have_one_owner : (ops : List Op) (s : State) → IsOwned s → IsOwned (run s ops)
unfolding run
frames_have_one_owner [] s v = v
frames_have_one_owner (op ∷ ops) s v = frames_have_one_owner ops (step s op) (step-IsOwned s op v)
