-- ===== src/Resources/FileGuard/Descriptors.antt =====
-- Chapter 5/raii.cpp: which descriptors stay open without an owner.
use c_programming_for_linux.Prelude.{
  ℕ, ◌<◌, ◌≡◌, refl, true, false, List, [], ◌∷◌, none, some, ltb, arith, length, set, Bool-cases,
  inl, inr, ltb→lt,
}
use c_programming_for_linux.Resources.Handles.{
  Handle, State, get, acquire, release, IsOwned, owners, owners-set, owners-append, acquire-IsOwned,
  release-IsOwned, pass-IsOwned, holds-le-owners, owners-pass, owners-copy, copy-IsOwned,
}
use c_programming_for_linux.Resources.FileGuard.{
  Op, create, move_construct, move_assign, destroy, construct, construct_from, destruct,
  assign_from, step, run, holds_one, overwrites, overwrites_any,
}

none_held : (h : Handle) → holds_one h ≡ false → h ≡ none
unfolding holds_one
none_held none e = refl
none_held (some r) e = absurd (ground (arith, e))

assign_from-IsOwned :
    (s : State) (this other : ℕ)
    → overwrites s (move_assign this other) ≡ false
    → IsOwned s
    → IsOwned (step s (move_assign this other))
unfolding overwrites step assign_from
assign_from-IsOwned s this other h v = elim (Bool-cases (ltb this (length s.vars))) [
  | inl e ↦ elim (Bool-cases (ltb other (length s.vars))) [
    | inl f ↦
        rw (e, f)
          (pass-IsOwned s this other (ltb→lt this (length s.vars) e)
            (ltb→lt other (length s.vars) f) (none_held (get s.vars this) h) v)
    | inr f ↦ rw (e, f) v
  ]
  | inr e ↦ rw e v
]

step-IsOwned : (s : State) (op : Op) → overwrites s op ≡ false → IsOwned s → IsOwned (step s op)
unfolding step construct construct_from destruct
step-IsOwned s (create false) h v = v
step-IsOwned s (create true) h v = acquire-IsOwned s v
step-IsOwned s (move_construct other) h v = elim (Bool-cases (ltb other (length s.vars))) [
  | inl e ↦ rw e (copy-IsOwned s other (ltb→lt other (length s.vars) e) v)
  | inr e ↦ rw e v
]
step-IsOwned s (move_assign this other) h v = assign_from-IsOwned s this other h v
step-IsOwned s (destroy this) h v = elim (Bool-cases (ltb this (length s.vars))) [
  | inl e ↦ rw e (release-IsOwned s this (ltb→lt this (length s.vars) e) v)
  | inr e ↦ rw e v
]

-- From a state in which each open descriptor is held by exactly one guard, no other one by any, and
-- none was closed twice, the same holds after every sequence of operations that never assigns to a
-- guard that holds a descriptor.
pub descriptors_have_one_owner :
    (ops : List Op) (s : State) → overwrites_any s ops ≡ false → IsOwned s → IsOwned (run s ops)
unfolding run overwrites_any
descriptors_have_one_owner [] s h v = v
descriptors_have_one_owner (op ∷ ops) s h v =
    descriptors_have_one_owner ops (step s op) (ground (arith, h))
      (step-IsOwned s op (ground (arith, h)) v)

pub record IsLeaked (r : ℕ) (s : State) : Type 0 where
  pub still_open : s.live r ≡ true
  pub unowned : owners r s.vars ≡ 0
  pub used : r < s.next

assign_from-IsLeaked :
    (s : State) (this other r : ℕ)
    → this < length s.vars
    → other < length s.vars
    → IsOwned s
    → get s.vars this ≡ some r
    → IsLeaked r (assign_from this other s)
unfolding assign_from
assign_from-IsLeaked s this other r hi hj v e =
    let passed = owners-pass r s.vars this other hi hj in
    let held = holds-le-owners r s.vars this in
    record {
      still_open = ground (arith, e, held, v.counted r);
      unowned = ground (arith, e, passed, held, v.counted r);
      used = ground (arith, e, held, v.counted r, v.fresh r);
    }

release_held-IsLeaked :
    (r : ℕ) (s : State) (i : ℕ) (g : Handle)
    → get s.vars i ≡ g
    → i < length s.vars
    → IsLeaked r s
    → IsLeaked r (record (release g s) { vars = set s.vars i none })
unfolding release
release_held-IsLeaked r s i none e h v = record {
  still_open = v.still_open;
  unowned = ground (arith, e, owners-set r s.vars i none h, v.unowned);
  used = v.used;
}
release_held-IsLeaked r s i (some q) e h v = record {
  still_open = ground (arith, e, v.still_open, v.unowned, holds-le-owners r s.vars i);
  unowned = ground (arith, e, owners-set r s.vars i none h, v.unowned);
  used = v.used;
}

step-IsLeaked : (r : ℕ) (s : State) (op : Op) → IsLeaked r s → IsLeaked r (step s op)
unfolding step construct acquire construct_from assign_from destruct release
step-IsLeaked r s (create false) v = v
step-IsLeaked r s (create true) v = record {
  still_open = ground (arith, v.still_open);
  unowned = ground (arith, owners-append r s.vars (some s.next ∷ []), v.unowned, v.used);
  used = ground (arith, v.used);
}
step-IsLeaked r s (move_construct other) v = elim (Bool-cases (ltb other (length s.vars))) [
  | inl e ↦ rw e (record {
    still_open = v.still_open;
    unowned =
        ground (arith, owners-copy r s.vars other (ltb→lt other (length s.vars) e), v.unowned);
    used = v.used;
  })
  | inr e ↦ rw e v
]
step-IsLeaked r s (move_assign this other) v = elim (Bool-cases (ltb this (length s.vars))) [
  | inl e ↦ elim (Bool-cases (ltb other (length s.vars))) [
    | inl f ↦
        rw (e, f)
          (record {
            still_open = v.still_open;
            unowned = ground (
              arith,
              owners-pass r s.vars this other (ltb→lt this (length s.vars) e)
                  (ltb→lt other (length s.vars) f),
              v.unowned,
            );
            used = v.used;
          })
    | inr f ↦ rw (e, f) v
  ]
  | inr e ↦ rw e v
]
step-IsLeaked r s (destroy this) v = elim (Bool-cases (ltb this (length s.vars))) [
  | inl e ↦
      rw e (release_held-IsLeaked r s this (get s.vars this) refl (ltb→lt this (length s.vars) e) v)
  | inr e ↦ rw e v
]

run-IsLeaked : (r : ℕ) (ops : List Op) (s : State) → IsLeaked r s → IsLeaked r (run s ops)
unfolding run
run-IsLeaked r [] s v = v
run-IsLeaked r (op ∷ ops) s v = run-IsLeaked r ops (step s op) (step-IsLeaked r s op v)

-- In a state in which each open descriptor is held by exactly one guard, move-assigning to a guard
-- that holds a descriptor leaves that descriptor open and held by no guard, whatever is done after.
pub overwritten_descriptor_leaks :
    (s : State) (this other fd : ℕ) (ops : List Op)
    → IsOwned s
    → this < length s.vars
    → other < length s.vars
    → get s.vars this ≡ some fd
    → ((run (assign_from this other s) ops).live fd ≡ true)
      × (owners fd (run (assign_from this other s) ops).vars ≡ 0)
overwritten_descriptor_leaks s this other fd ops v hi hj e =
    let leaked =
      run-IsLeaked fd ops (assign_from this other s)
        (assign_from-IsLeaked s this other fd hi hj v e) in
    (leaked.still_open, leaked.unowned)
