-- ===== src/Sync/ReadWriteLock.antt =====
-- Chapter 9/read_write_lock.cpp: readers that print views of a vector of books, and writers that
-- append to it, under a `shared_mutex`. A reader looks at the vector twice: where its iteration
-- begins and where it prints.
pub mod Exclusion
pub mod Stability
mod Examples
use Prim.Native.String.{String}
use c_programming_for_linux.Prelude.{
  get_elem?, ℕ, zero, suc, ◌+◌, ◌-◌, Bool, true, false, List, [], ◌∷◌, ◌++◌, Option, none, some,
  ltb, ◌==◌, if◌then◌else◌, length, set, take, drop,
}
use c_programming_for_linux.Ipc.Buffer.{codes}

pub record Book : Type 0 where
  pub title : String
  pub author : String
  pub year : ℕ

abbrev pub shared_data : List Book
shared_data =
    record { title = "Harry Potter"; author = "Rowling"; year = 1997 }
    ∷ record { title = "East of Eden"; author = "Steinbeck"; year = 1952 }
    ∷ record { title = "It"; author = "King"; year = 1986 }
    ∷ []

pub filter : (Book → Bool) → List Book → List Book
filter test [] = []
filter test (b ∷ bs) = let rest = filter test bs in if test b then b ∷ rest else rest

pub reverse : List Book → List Book
reverse [] = []
reverse (b ∷ bs) = reverse bs ++ b ∷ []

-- `book.author.size()`
pub author_size : Book → ℕ
unfolding codes
author_size book = length (codes book.author)

-- The four readers and the writer, with their arguments.
pub data Job : Type 0 where
  apply_year_filter : (year_key : ℕ) → Job
  reversed : Job
  reversed_filtered_by_author_name_size : (name_size_key : ℕ) → Job
  drop_first_n : (drop_key : ℕ) → Job
  add_new_book : Book → Job

-- The books whose titles a reader prints.
pub view : Job → List Book → List Book
unfolding filter reverse author_size
view (apply_year_filter year_key) books = filter (λ book. ltb book.year year_key) books
view reversed books = reverse books
view (reversed_filtered_by_author_name_size name_size_key) books =
    filter (λ book. ltb (author_size book) name_size_key) (reverse books)
view (drop_first_n drop_key) books = drop drop_key books
view (add_new_book book) books = []

-- `reading` and `writing` hold the mutex, shared and alone; `reading` keeps what it saw first.
pub data Pc : Type 0 where
  locking : Pc
  beginning : Pc
  reading : (seen : List Book) → Pc
  writing : Pc
  unlocking_shared : Pc
  unlocking : Pc
  finished : Pc

pub record Worker : Type 0 where
  pub job : Job
  pub pc : Pc
  pub printed : List Book

-- `readers` and `writer` are the state of the `shared_mutex`.
pub record State : Type 0 where
  pub readers : ℕ
  pub writer : Bool
  pub data_now : List Book
  pub workers : List Worker

abbrev pub start : Job → Worker
start job = record { job = job; pc = Pc.locking; printed = [] }

-- `main` with any threads and any books.
abbrev pub started : List Book → List Worker → State
started books workers = record { readers = 0; writer = false; data_now = books; workers = workers }

-- The threads of `main`.
abbrev pub main_jobs : List Job
main_jobs =
    apply_year_filter 1990
    ∷ reversed
    ∷ reversed_filtered_by_author_name_size 8
    ∷ add_new_book (record { title = "Dune"; author = "Herbert"; year = 1965 })
    ∷ drop_first_n 1
    ∷ add_new_book (record { title = "Jaws"; author = "Benchley"; year = 1974 })
    ∷ apply_year_filter 1970
    ∷ []

pub data Move : Type 0 where
  lock_shared lock unlock_shared unlock quiet : Move
  emplace_back : Book → Move

-- What a worker does next with the shared state, and how it then stands; none where it has ended.
pub next : Worker → List Book → Option (Move × Worker)
next w books = elim w.pc [
  | Pc.locking ↦ elim w.job [
    | add_new_book book ↦ some (lock, record w { pc = Pc.writing })
    | _ ↦ some (lock_shared, record w { pc = Pc.beginning })
  ]
  | Pc.beginning ↦ some (quiet, record w { pc = Pc.reading books })
  | Pc.reading seen ↦
      some (quiet, record w { pc = Pc.unlocking_shared; printed = view w.job books })
  | Pc.writing ↦ elim w.job [
    | add_new_book book ↦ some (emplace_back book, record w { pc = Pc.unlocking })
    | _ ↦ some (quiet, record w { pc = Pc.unlocking })
  ]
  | Pc.unlocking_shared ↦ some (unlock_shared, record w { pc = Pc.finished })
  | Pc.unlocking ↦ some (unlock, record w { pc = Pc.finished })
  | Pc.finished ↦ none
]

pub move : Move → State → Option State
move lock_shared s = if s.writer then none else some (record s { readers = s.readers + 1 })
move lock s =
    if s.writer then none else if s.readers == 0 then some (record s { writer = true }) else none
move unlock_shared s = some (record s { readers = s.readers - 1 })
move unlock s = some (record s { writer = false })
move quiet s = some s
move (emplace_back book) s = some (record s { data_now = s.data_now ++ book ∷ [] })

-- A turn of the worker with index `i`.
pub step : ℕ → State → Option State
step i s = elim (get_elem? s.workers i) [
  | none ↦ none
  | some w ↦ elim (next w s.data_now) [
    | none ↦ none
    | some (m, w') ↦ elim (move m s) [
      | none ↦ none
      | some t ↦ some (record t { workers = set s.workers i w' })
    ]
  ]
]

-- `subrange(begin() + 1, begin() + 3)`, which `main` prints at the end.
pub sub_res : List Book → List Book
sub_res books = take 2 (drop 1 books)
