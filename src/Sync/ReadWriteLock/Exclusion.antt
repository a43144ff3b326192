-- ===== src/Sync/ReadWriteLock/Exclusion.antt =====
-- Chapter 9/read_write_lock.cpp: what the lock guarantees for any threads and any books.
use c_programming_for_linux.Prelude.{
  get_elem?, sum_by, sum_by-set, ℕ, ◌≡◌, refl, List, [], ◌∷◌, some, true, if◌then◌else◌, arith, set,
  All, Option-cases, inl, inr,
}
use c_programming_for_linux.Sync.ReadWriteLock.{
  Book, Job, view, Pc, Worker, State, start, Move, next, move, step,
}

-- Whether a worker holds the mutex shared or alone, and whether it has added a book.
abbrev pub in_shared : Worker → ℕ
in_shared w = elim w.pc [ Pc.beginning ↦ 1 | Pc.reading seen ↦ 1 | Pc.unlocking_shared ↦ 1 | _ ↦ 0 ]

abbrev pub in_alone : Worker → ℕ
in_alone w = elim w.pc [ Pc.writing ↦ 1 | Pc.unlocking ↦ 1 | _ ↦ 0 ]

-- What a reader has seen and printed agrees with the books as they are while it holds the mutex.
abbrev pub Agrees : List Book → Worker → Type 0
Agrees books w = elim w.pc [
  | Pc.reading seen ↦ seen ≡ books
  | Pc.unlocking_shared ↦ w.printed ≡ view w.job books
  | _ ↦ Unit
]

abbrev pub starts : List Job → List Worker
starts [] = []
starts (job ∷ jobs) = start job ∷ starts jobs

pub count-starts :
    (jobs : List Job) → (sum_by in_shared (starts jobs) ≡ 0) × (sum_by in_alone (starts jobs) ≡ 0)
count-starts [] = (refl, refl)
count-starts (job ∷ jobs) =
    let rest = count-starts jobs in (omega (arith, rest.0), omega (arith, rest.1))

pub starts-Agrees : (books : List Book) (jobs : List Job) → All (Agrees books) (starts jobs)
starts-Agrees books [] = tt
starts-Agrees books (job ∷ jobs) = (tt, starts-Agrees books jobs)

-- Without readers everybody agrees with any books.
pub unshared-Agrees :
    (books : List Book) (job : Job) (pc : Pc) (printed : List Book)
    → let w : Worker = record { job = job; pc = pc; printed = printed } in
      in_shared w ≡ 0 → Agrees books w
unshared-Agrees books job Pc.locking printed e = tt
unshared-Agrees books job Pc.beginning printed e = absurd (omega (arith, e))
unshared-Agrees books job (Pc.reading seen) printed e = absurd (omega (arith, e))
unshared-Agrees books job Pc.writing printed e = tt
unshared-Agrees books job Pc.unlocking_shared printed e = absurd (omega (arith, e))
unshared-Agrees books job Pc.unlocking printed e = tt
unshared-Agrees books job Pc.finished printed e = tt

pub unread-Agrees :
    (books : List Book) (ws : List Worker) → sum_by in_shared ws ≡ 0 → All (Agrees books) ws
unread-Agrees books [] e = tt
unread-Agrees books (w ∷ ws) e = (
  unshared-Agrees books w.job w.pc w.printed (omega (arith, e)),
  unread-Agrees books ws (omega (arith, e)),
)

pub step-cases :
    (i : ℕ) (s s' : State)
    → step i s ≡ some s'
    → (w w' : Worker) × (m : Move) × (t : State) × (get_elem? s.workers i ≡ some w)
      × (next w s.data_now ≡ some (m, w'))
      × (move m s ≡ some t)
      × (s' ≡ record t { workers = set s.workers i w' })
unfolding step
step-cases i s s' e = elim (Option-cases (get_elem? s.workers i)) [
  | inl none_there ↦ absurd (ground (arith, none_there, e))
  | inr (w, there) ↦ elim (Option-cases (next w s.data_now)) [
    | inl ended ↦ absurd (ground (arith, there, ended, e))
    | inr ((m, w'), turn) ↦ elim (Option-cases (move m s)) [
      | inl blocked ↦ absurd (ground (arith, there, turn, blocked, e))
      | inr (t, moved) ↦ (w, w', m, t, there, turn, moved, ground (arith, there, turn, moved, e))
    ]
  ]
]

pub record Inv (s : State) : Type 0 where
  pub shared_held : sum_by in_shared s.workers ≡ s.readers
  pub alone_held : sum_by in_alone s.workers ≡ (if s.writer then 1 else 0)
  pub excludes : s.writer ≡ true → s.readers ≡ 0

pub counts-kept :
    (i : ℕ) (s t : State) (w w' : Worker) (m : Move)
    → get_elem? s.workers i ≡ some w
    → next w s.data_now ≡ some (m, w')
    → move m s ≡ some t
    → Inv s
    → Inv (record t { workers = set s.workers i w' })
unfolding next move
counts-kept i s t w w' m there turn moved v =
    let shared = sum_by-set in_shared s.workers i w w' there in
    let alone = sum_by-set in_alone s.workers i w w' there in
    record {
      shared_held =
          ground
            (arith, shared, alone, there, turn, moved, v.shared_held, v.alone_held, v.excludes);
      alone_held =
          ground
            (arith, shared, alone, there, turn, moved, v.shared_held, v.alone_held, v.excludes);
      excludes =
          ground
            (arith, shared, alone, there, turn, moved, v.shared_held, v.alone_held, v.excludes);
    }
