-- ===== src/Sync/ReadWriteLock/Stability.antt =====
-- Chapter 9/read_write_lock.cpp: what readers see and print, and what becomes of the books.
use c_programming_for_linux.Prelude.{
  get_elem?, sum_by, sum_by-get, All-set, ℕ, ◌≤◌, ◌≡◌, refl, List, [], ◌∷◌, ◌++◌, some, arith, run,
  run_inv, set, drop, All, subst, sym, ◌∙◌, ◌⊎◌, inl, inr, append_assoc, append-nil,
}
use c_programming_for_linux.Sync.ReadWriteLock.{
  Book, shared_data, Job, Worker, State, started, Move, next, move, step, sub_res,
}
use c_programming_for_linux.Sync.ReadWriteLock.Exclusion.{
  in_shared, in_alone, Agrees, starts, count-starts, starts-Agrees, unshared-Agrees, unread-Agrees,
  step-cases, Inv, counts-kept,
}

next-Agrees :
    (w w' : Worker) (books : List Book) (m : Move)
    → next w books ≡ some (m, w')
    → in_alone w ≡ 0
    → Agrees books w'
unfolding next
next-Agrees w w' books m turn e = ground (arith, turn, e)

-- The books change only while nobody reads.
data_kept :
    (i : ℕ) (s t : State) (w w' : Worker) (m : Move)
    → get_elem? s.workers i ≡ some w
    → next w s.data_now ≡ some (m, w')
    → move m s ≡ some t
    → in_alone w ≡ 0
    → t.data_now ≡ s.data_now
unfolding next move
data_kept i s t w w' m there turn moved e = ground (arith, turn, moved, e)

data_grows :
    (m : Move) (s t : State)
    → move m s ≡ some t
    → (t.data_now ≡ s.data_now) ⊎ ((book : Book) × (t.data_now ≡ s.data_now ++ book ∷ []))
unfolding move
data_grows Move.lock_shared s t e = inl (ground (arith, e))
data_grows Move.lock s t e = inl (ground (arith, e))
data_grows Move.unlock_shared s t e = inl (ground (arith, e))
data_grows Move.unlock s t e = inl (ground (arith, e))
data_grows Move.quiet s t e = inl (ground (arith, e))
data_grows (Move.emplace_back book) s t e = inr (book, ground (arith, e))

pub record Stable (books : List Book) (s : State) : Type 0 where
  pub counts : Inv s
  pub agrees : All (Agrees s.data_now) s.workers
  pub kept : (added : List Book) × (s.data_now ≡ books ++ added)

alone_cases : (w : Worker) → (in_alone w ≡ 0) ⊎ (in_alone w ≡ 1)
alone_cases w = ground arith

-- A worker that holds the mutex alone leaves nobody who reads.
alone-Agrees :
    (i : ℕ) (s t : State) (w w' : Worker) (m : Move)
    → get_elem? s.workers i ≡ some w
    → next w s.data_now ≡ some (m, w')
    → in_alone w ≡ 1
    → Inv s
    → All (Agrees t.data_now) (set s.workers i w')
unfolding next
alone-Agrees i s t w w' m there turn e v =
    let some_alone = sum_by-get in_alone s.workers i w there in
    let no_reader : sum_by in_shared s.workers ≡ 0 =
      ground (arith, some_alone, e, v.shared_held, v.alone_held, v.excludes) in
    All-set (Agrees t.data_now) s.workers i w' (unread-Agrees t.data_now s.workers no_reader)
      (unshared-Agrees t.data_now w'.job w'.pc w'.printed (ground (arith, turn, e)))

step-Agrees :
    (i : ℕ) (s t : State) (w w' : Worker) (m : Move)
    → get_elem? s.workers i ≡ some w
    → next w s.data_now ≡ some (m, w')
    → move m s ≡ some t
    → Inv s
    → All (Agrees s.data_now) s.workers
    → All (Agrees t.data_now) (set s.workers i w')
step-Agrees i s t w w' m there turn moved v h = elim (alone_cases w) [
  | inr e ↦ alone-Agrees i s t w w' m there turn e v
  | inl e ↦
      subst (λ d. All (Agrees d) (set s.workers i w'))
        (sym (data_kept i s t w w' m there turn moved e))
        (All-set (Agrees s.data_now) s.workers i w' h (next-Agrees w w' s.data_now m turn e))
]

step-kept :
    (books : List Book) (m : Move) (s t : State)
    → move m s ≡ some t
    → (added : List Book) × (s.data_now ≡ books ++ added)
    → (added : List Book) × (t.data_now ≡ books ++ added)
step-kept books m s t moved (added, e) = elim (data_grows m s t moved) [
  | inl same ↦ (added, same ∙ e)
  | inr (book, more) ↦ (added ++ book ∷ [], more ∙ rw e (append_assoc books added (book ∷ [])))
]

step-Stable :
    (books : List Book) (i : ℕ) (s s' : State)
    → Stable books s
    → step i s ≡ some s'
    → Stable books s'
step-Stable books i s s' v e =
    let (w, w', m, t, there, turn, moved, is) = step-cases i s s' e in
    subst (Stable books) (sym is) (record {
      counts = counts-kept i s t w w' m there turn moved v.counts;
      agrees = step-Agrees i s t w w' m there turn moved v.counts v.agrees;
      kept = step-kept books m s t moved v.kept;
    })

start-Stable : (books : List Book) (jobs : List Job) → Stable books (started books (starts jobs))
start-Stable books jobs =
    let none_in = count-starts jobs in
    record {
      counts = record { shared_held = none_in.0; alone_held = none_in.1; excludes = λ e. refl };
      agrees = starts-Agrees books jobs;
      kept = ([], sym (append-nil books));
    }

-- For any books, any threads and every schedule: at most one thread holds the mutex alone, then
-- nobody holds it shared; what each reader saw when it began is what the vector still holds, what
-- it has printed before it unlocks is its view of the vector; and the books of the start are still
-- the first ones.
pub readers_see_stable_books :
    (books : List Book) (jobs : List Job) (ts : List ℕ)
    → let s = run step ts (started books (starts jobs)) in
      (sum_by in_alone s.workers ≤ 1)
      × (1 ≤ sum_by in_alone s.workers → sum_by in_shared s.workers ≡ 0)
      × All (Agrees s.data_now) s.workers
      × ((added : List Book) × (s.data_now ≡ books ++ added))
readers_see_stable_books books jobs ts =
    let v =
      run_inv step (Stable books) (step-Stable books) ts (started books (starts jobs))
        (start-Stable books jobs) in
    let c = v.counts in
    (
      ground (arith, c.alone_held),
      λ h. ground (arith, h, c.shared_held, c.alone_held, c.excludes),
      v.agrees,
      v.kept,
    )

-- Under every schedule of any threads, `main` prints the second and the third of its books.
pub sub_res_unchanged :
    (jobs : List Job) (ts : List ℕ)
    → sub_res (run step ts (started shared_data (starts jobs))).data_now ≡ drop 1 shared_data
unfolding sub_res
sub_res_unchanged jobs ts =
    let (added, e) = (readers_see_stable_books shared_data jobs ts).3 in rw e refl
