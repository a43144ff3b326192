-- ===== src/Filesystem/Listing.antt =====
-- Chapter 3/dir_iterator.cpp and Chapter 3/dir_symlink.cpp: programs that walk through `test_dir`. What
-- is there does not change during the walk, nothing in it is forbidden to read, and symbolic links
-- are not followed, as is the default of `recursive_directory_iterator`. Names are only compared, so
-- a number stands for each.
pub mod Reached
pub mod Printed
mod Examples
use mathlib.Core.Option
use c_programming_for_linux.Prelude.{
  ℕ, Bool, true, false, List, [], ◌∷◌, ◌++◌, map, Option, none, some, ◌==◌, if◌then◌else◌,
}

abbrev pub Name : Type 0
Name = ℕ

-- Below `test_dir`.
abbrev pub EntryPath : Type 0
EntryPath = List Name

-- The entries of a directory, in the order in which the iterators give them.
pub data Entries : Type 0 where
  nothing : Entries
  file : Name → Entries → Entries
  symlink : Name → (target : EntryPath) → Entries → Entries
  directory : Name → Entries → Entries → Entries

-- What a path leads to.
pub data Found : Type 0 where
  a_file a_directory : Found
  a_symlink : (target : EntryPath) → Found

pub directory_iterator : Entries → List EntryPath
directory_iterator nothing = []
directory_iterator (file n es) = (n ∷ []) ∷ directory_iterator es
directory_iterator (symlink n target es) = (n ∷ []) ∷ directory_iterator es
directory_iterator (directory n inner es) = (n ∷ []) ∷ directory_iterator es

-- A directory comes before its entries.
pub recursive_directory_iterator : Entries → List EntryPath
recursive_directory_iterator nothing = []
recursive_directory_iterator (file n es) = (n ∷ []) ∷ recursive_directory_iterator es
recursive_directory_iterator (symlink n target es) = (n ∷ []) ∷ recursive_directory_iterator es
recursive_directory_iterator (directory n inner es) =
    (n ∷ []) ∷ map (◌∷◌ n) (recursive_directory_iterator inner) ++ recursive_directory_iterator es

abbrev pub leaf : Found → EntryPath → Option Found
leaf found [] = some found
leaf found (n ∷ path) = none

-- The entry at a path, by the names on it.
pub lookup : Entries → EntryPath → Option Found
lookup es [] = some a_directory
lookup nothing (n ∷ path) = none
lookup (file m es) (n ∷ path) = if m == n then leaf a_file path else lookup es (n ∷ path)
lookup (symlink m target es) (n ∷ path) =
    if m == n then leaf (a_symlink target) path else lookup es (n ∷ path)
lookup (directory m inner es) (n ∷ path) =
    if m == n then lookup inner path else lookup es (n ∷ path)

pub is_symlink : Entries → EntryPath → Bool
unfolding lookup
is_symlink es path = elim (lookup es path) [ some (a_symlink target) ↦ true | _ ↦ false ]

-- none is an exception.
pub read_symlink : Entries → EntryPath → Option EntryPath
unfolding lookup
read_symlink es path = elim (lookup es path) [ some (a_symlink target) ↦ some target | _ ↦ none ]

-- The loop of dir_symlink.cpp, with what it prints.
pub print_symlinks : Entries → List EntryPath → Option (List EntryPath)
unfolding is_symlink read_symlink Option.bind
print_symlinks es [] = some []
print_symlinks es (path ∷ paths) =
    let rest = print_symlinks es paths in
    if is_symlink es path
    then Option.bind (read_symlink es path)
        (λ target. Option.map (λ printed. target ∷ printed) rest)
    else rest

-- `main` of dir_iterator.cpp: what is printed before the empty line, and after it. Where there is no
-- directory `test_dir`, it ends by the exception of the iterator.
pub dir_iterator : Option Entries → Option (List EntryPath × List EntryPath)
unfolding directory_iterator recursive_directory_iterator
dir_iterator none = none
dir_iterator (some es) = some (directory_iterator es, recursive_directory_iterator es)

-- `main` of dir_symlink.cpp.
pub dir_symlink : Option Entries → Option (List EntryPath)
unfolding print_symlinks recursive_directory_iterator
dir_symlink none = none
dir_symlink (some es) = print_symlinks es (recursive_directory_iterator es)
