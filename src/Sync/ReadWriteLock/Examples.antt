-- ===== src/Sync/ReadWriteLock/Examples.antt =====
-- Chapter 9/read_write_lock.cpp: runs of the threads of `main`.
use Prim.Native.String.{String}
use c_programming_for_linux.Prelude.{sum_by, ℕ, ◌≡◌, ◌≤◌, refl, List, [], ◌∷◌, ◌++◌, run, All}
use c_programming_for_linux.Sync.ReadWriteLock.{
  Book, shared_data, Job, apply_year_filter, reversed, reversed_filtered_by_author_name_size,
  add_new_book, view, started, step, next, move,
}
use c_programming_for_linux.Sync.ReadWriteLock.Exclusion.{in_shared, in_alone, Agrees, starts}
use c_programming_for_linux.Sync.ReadWriteLock.Stability.{readers_see_stable_books}

abbrev dune : Book
dune = record { title = "Dune"; author = "Herbert"; year = 1965 }

abbrev titles : List Book → List String
titles [] = []
titles (b ∷ bs) = b.title ∷ titles bs

abbrev jobs : List Job
jobs = apply_year_filter 1990 ∷ add_new_book dune ∷ reversed ∷ []

-- The first reader begins; the writer is refused, and tries again once the reader has unlocked.
abbrev schedule : List ℕ
schedule = 0 ∷ 0 ∷ 1 ∷ 0 ∷ 0 ∷ 1 ∷ 1 ∷ 2 ∷ 1 ∷ 2 ∷ 2 ∷ 2 ∷ []

year_filter_titles : titles (view (apply_year_filter 1990) shared_data) ≡ "East of Eden" ∷ "It" ∷ []
unfolding view
year_filter_titles = refl

name_size_titles :
    titles (view (reversed_filtered_by_author_name_size 8) shared_data) ≡ "It" ∷ "Harry Potter" ∷ []
unfolding view
name_size_titles = refl

dune_added :
    titles (run step schedule (started shared_data (starts jobs))).data_now
    ≡ "Harry Potter" ∷ "East of Eden" ∷ "It" ∷ "Dune" ∷ []
unfolding run step next move
dune_added = refl

readers_see_stable_books_example :
    let s = run step schedule (started shared_data (starts jobs)) in
    (sum_by in_alone s.workers ≤ 1)
    × (1 ≤ sum_by in_alone s.workers → sum_by in_shared s.workers ≡ 0)
    × All (Agrees s.data_now) s.workers
    × ((added : List Book) × (s.data_now ≡ shared_data ++ added))
readers_see_stable_books_example = readers_see_stable_books shared_data jobs schedule
