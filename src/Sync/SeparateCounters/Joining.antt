-- ===== src/Sync/SeparateCounters/Joining.antt =====
-- Chapter 9/hardware_interference_example.cpp: a thread that main has joined has counted to its
-- end.
use c_programming_for_linux.Prelude.{
  ℕ, zero, suc, ◌+◌, ◌≤◌, ◌<◌, ◌≡◌, refl, inl, inr, List, [], ◌∷◌, some, length, set, get_elem?,
  AllFrom, AllFrom-set, AllFrom-get, arith, Option-cases, subst, length-set,
}
use c_programming_for_linux.Sync.SeparateCounters.{
  Turn, main_turn, thread_turn, Pc, Thread, State, limit, started, main_started, increment_step,
  thread_step, join_step, step,
}

abbrev pub InLoop : ℕ → Pc → Type 0
InLoop i Pc.looping = i ≤ limit
InLoop i Pc.adding = i < limit
InLoop i Pc.finished = i ≡ limit

-- A thread with this number, while main has joined so many.
pub record Fits (joined k : ℕ) (t : Thread) : Type 0 where
  pub counted : t.shared_res ≡ t.i
  pub in_loop : InLoop t.i t.pc
  pub over : k < joined → t.pc ≡ Pc.finished

abbrev pub Inv : ℕ → State → Type 0
Inv n s = AllFrom (Fits s.joined) 0 s.threads × (length s.threads ≡ n) × (s.joined ≤ n)

pub increment-Fits :
    (joined k : ℕ) (t t' : Thread) (pc : Pc)
    → t.pc ≡ pc
    → Fits joined k t
    → increment_step t pc ≡ some t'
    → Fits joined k t'
unfolding increment_step
increment-Fits joined k t t' Pc.looping at v e = ground (arith, at, e, v.counted, v.in_loop, v.over)
increment-Fits joined k t t' Pc.adding at v e = ground (arith, at, e, v.counted, v.in_loop, v.over)
increment-Fits joined k t t' Pc.finished at v e = ground (arith, e)

pub get_elem?-lt-length :
    {A : Type 0} (xs : List A) (i : ℕ) (x : A) → get_elem? xs i ≡ some x → i < length xs
get_elem?-lt-length [] i x e = absurd (ground (arith, e))
get_elem?-lt-length (y ∷ xs) zero x e = omega arith
get_elem?-lt-length (y ∷ xs) (suc i) x e = omega (arith, get_elem?-lt-length xs i x e)

-- The join of a thread that has finished.
join-AllFrom :
    (joined k : ℕ) (ts : List Thread)
    → ((i : ℕ) (t : Thread) → get_elem? ts i ≡ some t → k + i ≡ joined → t.pc ≡ Pc.finished)
    → AllFrom (Fits joined) k ts
    → AllFrom (Fits (joined + 1)) k ts
join-AllFrom joined k [] h v = tt
join-AllFrom joined k (t ∷ ts) h v = (
  record {
    counted = v.0.counted;
    in_loop = v.0.in_loop;
    over = λ less. ground (arith, less, h 0 t refl, v.0.over);
  },
  join-AllFrom joined (k + 1) ts (λ i t' there at. h (suc i) t' there (omega (arith, at))) v.1,
)

pub join_step_inverted :
    (s s' : State)
    → join_step s ≡ some s'
    → (t : Thread) × (get_elem? s.threads s.joined ≡ some t)
      × (t.pc ≡ Pc.finished)
      × (record s { joined = s.joined + 1 } ≡ s')
unfolding join_step
join_step_inverted s s' e = elim (Option-cases (get_elem? s.threads s.joined)) [
  | inl gone ↦ absurd (ground (arith, gone, e))
  | inr (t, there) ↦ (t, there, ground (arith, there, e), ground (arith, there, e))
]

pub thread_step_inverted :
    (k : ℕ) (s s' : State)
    → thread_step k s ≡ some s'
    → (t t' : Thread) × (get_elem? s.threads k ≡ some t)
      × (increment_step t t.pc ≡ some t')
      × (record s { threads = set s.threads k t' } ≡ s')
unfolding thread_step
thread_step_inverted k s s' e = elim (Option-cases (get_elem? s.threads k)) [
  | inl gone ↦ absurd (ground (arith, gone, e))
  | inr (t, there) ↦ elim (Option-cases (increment_step t t.pc)) [
    | inl stuck ↦ absurd (ground (arith, there, stuck, e))
    | inr (t', moved) ↦ (t, t', there, moved, ground (arith, there, moved, e))
  ]
]

-- The element with a number, whichever equation names it.
only_element :
    (ts : List Thread) (i j : ℕ) (t u : Thread)
    → get_elem? ts i ≡ some t
    → get_elem? ts j ≡ some u
    → i ≡ j
    → t ≡ u
only_element ts i j t u e1 e2 same =
    let e3 : get_elem? ts i ≡ some u = rw same e2 in ground (arith, e1, e3)

pub step-Inv : (n : ℕ) (t : Turn) (s s' : State) → Inv n s → step t s ≡ some s' → Inv n s'
unfolding step
step-Inv n main_turn s s' v e =
    let (t, there, fin, same) = join_step_inverted s s' e in
    subst (Inv n) same (
      join-AllFrom s.joined 0 s.threads
          (λ i u here at.
            subst (λ w. w.pc ≡ Pc.finished)
              (only_element s.threads s.joined i t u there here (omega (arith, at))) fin)
          v.0,
      v.1,
      omega (arith, v.1, get_elem?-lt-length s.threads s.joined t there),
    )
step-Inv n (thread_turn k) s s' v e =
    let (t, t', there, moved, same) = thread_step_inverted k s s' e in
    let kept =
      increment-Fits s.joined (0 + k) t t' t.pc refl
        (AllFrom-get (Fits s.joined) 0 s.threads k t v.0 there) moved in
    subst (Inv n) same (
      AllFrom-set (Fits s.joined) 0 s.threads k t' v.0 kept,
      omega (arith, v.1, length-set s.threads k t'),
      v.2,
    )

started-AllFrom : (n k : ℕ) → AllFrom (Fits 0) k (started n)
unfolding started
started-AllFrom zero k = tt
started-AllFrom (suc n) k = (
  record { counted = refl; in_loop = omega arith; over = λ h. absurd (omega (arith, h)) },
  started-AllFrom n (k + 1),
)

length-started : (n : ℕ) → length (started n) ≡ n
unfolding started
length-started zero = refl
length-started (suc n) = omega (arith, length-started n)

pub main_started-Inv : (n : ℕ) → Inv n (main_started n)
unfolding main_started
main_started-Inv n = (started-AllFrom n 0, length-started n, omega arith)
