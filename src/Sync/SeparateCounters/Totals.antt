-- ===== src/Sync/SeparateCounters/Totals.antt =====
-- Chapter 9/hardware_interference_example.cpp: what main finds in the variables once it has joined.
use c_programming_for_linux.Prelude.{
  ℕ, zero, suc, ◌+◌, ◌-◌, ◌*◌, ◌≤◌, ◌<◌, ◌≡◌, ◌≢◌, refl, ◌⊎◌, inl, inr, Bool, true, false, List, [],
  ◌∷◌, none, some, ◌==◌, length, get_elem?, sum_by, sum_by-set, All, AllFrom, AllFrom-get, arith,
  run, run_inv, run_completes, length-set,
}
use c_programming_for_linux.Sync.SeparateCounters.{
  Turn, main_turn, thread_turn, Pc, Thread, State, limit, main_started, increment_step, thread_step,
  join_step, step,
}
use c_programming_for_linux.Sync.SeparateCounters.Joining.{
  Fits, Inv, get_elem?-lt-length, join_step_inverted, thread_step_inverted, step-Inv,
  main_started-Inv,
}

abbrev left : Thread → ℕ
left t = elim t.pc [
  | Pc.looping ↦ 2 * (limit - t.i) + 1
  | Pc.adding ↦ 2 * (limit - t.i)
  | Pc.finished ↦ 0
]

abbrev work_left : State → ℕ
work_left s = (length s.threads - s.joined) + sum_by left s.threads

increment-lowers :
    (joined k : ℕ) (t t' : Thread) (pc : Pc)
    → t.pc ≡ pc
    → Fits joined k t
    → increment_step t pc ≡ some t'
    → left t' < left t
unfolding increment_step
increment-lowers joined k t t' Pc.looping at v e = ground (arith, at, e, v.in_loop)
increment-lowers joined k t t' Pc.adding at v e = ground (arith, at, e, v.in_loop)
increment-lowers joined k t t' Pc.finished at v e = ground (arith, e)

step-lowers :
    (n : ℕ) (t : Turn) (s s' : State) → Inv n s → step t s ≡ some s' → work_left s' < work_left s
unfolding step
step-lowers n main_turn s s' v e =
    let (t, there, fin, same) = join_step_inverted s s' e in
    ground (arith, same, get_elem?-lt-length s.threads s.joined t there)
step-lowers n (thread_turn k) s s' v e =
    let (t, t', there, moved, same) = thread_step_inverted k s s' e in
    let less =
      increment-lowers s.joined (0 + k) t t' t.pc refl
        (AllFrom-get (Fits s.joined) 0 s.threads k t v.0 there) moved in
    ground (arith, same, less, sum_by-set left s.threads k t t' there, length-set s.threads k t')

abbrev pub all_joined : State → Bool
all_joined s = s.joined == length s.threads

get_elem?-exists :
    {A : Type 0} (xs : List A) (i : ℕ) → i < length xs → (x : A) × (get_elem? xs i ≡ some x)
get_elem?-exists [] i h = absurd (omega (arith, h))
get_elem?-exists (x ∷ xs) zero h = (x, refl)
get_elem?-exists (x ∷ xs) (suc i) h = get_elem?-exists xs i (omega (arith, h))

thread-moves : (t : Thread) (pc : Pc) → (increment_step t pc ≢ none) ⊎ (pc ≡ Pc.finished)
unfolding increment_step
thread-moves t Pc.looping = inl (λ e. ground (arith, e))
thread-moves t Pc.adding = inl (λ e. ground (arith, e))
thread-moves t Pc.finished = inr refl

some_moves : (n : ℕ) (s : State) → Inv n s → all_joined s ≡ false → (t : Turn) × (step t s ≢ none)
unfolding step thread_step join_step
some_moves n s v h =
    let (t, there) = get_elem?-exists s.threads s.joined (ground (arith, h, v.1, v.2)) in
    elim (thread-moves t t.pc) [
      | inl moves ↦ (thread_turn s.joined, λ e. moves (ground (arith, there, e)))
      | inr fin ↦ (main_turn, λ e. ground (arith, there, fin, e))
    ]

bounded-All :
    (joined k : ℕ) (ts : List Thread)
    → AllFrom (Fits joined) k ts
    → All (λ t. t.shared_res ≤ limit) ts
bounded-All joined k [] v = tt
bounded-All joined k (t ∷ ts) v =
    (ground (arith, v.0.counted, v.0.in_loop), bounded-All joined (k + 1) ts v.1)

complete-All :
    (joined k : ℕ) (ts : List Thread)
    → k + length ts ≤ joined
    → AllFrom (Fits joined) k ts
    → All (λ t. t.shared_res ≡ limit) ts
complete-All joined k [] h v = tt
complete-All joined k (t ∷ ts) h v =
    let less : k < joined = omega (arith, h) in
    let fin : t.pc ≡ Pc.finished = v.0.over less in
    (
      ground (arith, v.0.counted, v.0.in_loop, fin),
      complete-All joined (k + 1) ts (omega (arith, h)) v.1,
    )

-- For any number of threads: under every schedule no variable exceeds 100000, and when main has joined
-- all threads every one is 100000; from every state that a schedule leads to, some further schedule
-- brings main that far.
pub separate_totals :
    (n : ℕ) (ts : List Turn)
    → let s = run step ts (main_started n) in
      All (λ t. t.shared_res ≤ limit) s.threads
      × (all_joined s ≡ true → All (λ t. t.shared_res ≡ limit) s.threads)
      × ((us : List Turn) × (all_joined (run step us s) ≡ true))
separate_totals n ts =
    let s = run step ts (main_started n) in
    let v : Inv n s = run_inv step (Inv n) (step-Inv n) ts (main_started n) (main_started-Inv n) in
    (
      bounded-All s.joined 0 s.threads v.0,
      λ e. complete-All s.joined 0 s.threads (ground (arith, e)) v.0,
      run_completes step (Inv n) all_joined work_left (step-Inv n) (step-lowers n) (some_moves n)
          (suc (work_left s)) s (omega arith) v,
    )
