-- ===== src/Filesystem/Listing/Printed.antt =====
-- Chapter 3/dir_iterator.cpp and Chapter 3/dir_symlink.cpp: what the two programs print.
use mathlib.Core.List.{map-append}
use c_programming_for_linux.Prelude.{
  ◌≡◌, refl, inl, inr, Bool, true, false, List, [], ◌∷◌, ◌++◌, map, some, if◌then◌else◌, Bool-cases,
  arith,
}
use c_programming_for_linux.Filesystem.Listing.{
  Name, EntryPath, Entries, nothing, file, symlink, directory, Found, a_file, a_directory,
  a_symlink, directory_iterator, recursive_directory_iterator, lookup, is_symlink, read_symlink,
  print_symlinks, dir_iterator, dir_symlink,
}
use c_programming_for_linux.Filesystem.Listing.Reached.{
  HasDistinctNames, contents, reached, IsListed, lookup-IsListed,
}

abbrev pub targets : List Found → List EntryPath
targets [] = []
targets (a_symlink target ∷ fs) = target ∷ targets fs
targets (f ∷ fs) = targets fs

abbrev pub is_direct : EntryPath → Bool
is_direct (n ∷ []) = true
is_direct path = false

abbrev pub direct : List EntryPath → List EntryPath
direct [] = []
direct (path ∷ paths) = if is_direct path then path ∷ direct paths else direct paths

direct-append : (xs ys : List EntryPath) → direct (xs ++ ys) ≡ direct xs ++ direct ys
direct-append [] ys = refl
direct-append (x ∷ xs) ys = elim (Bool-cases (is_direct x)) [
  | inl h ↦ rw (h, direct-append xs ys)
  | inr h ↦ rw (h, direct-append xs ys)
]

direct-prefixed_twice :
    (n m : Name) (paths : List EntryPath) → direct (map (◌∷◌ n) (map (◌∷◌ m) paths)) ≡ []
direct-prefixed_twice n m [] = refl
direct-prefixed_twice n m (path ∷ paths) = direct-prefixed_twice n m paths

direct-prefixed :
    (n : Name) (es : Entries) → direct (map (◌∷◌ n) (recursive_directory_iterator es)) ≡ []
unfolding recursive_directory_iterator
direct-prefixed n nothing = refl
direct-prefixed n (file m es) = direct-prefixed n es
direct-prefixed n (symlink m target es) = direct-prefixed n es
direct-prefixed n (directory m inner es) = rw (
  map-append (◌∷◌ n) (map (◌∷◌ m) (recursive_directory_iterator inner))
      (recursive_directory_iterator es),
  direct-append (map (◌∷◌ n) (map (◌∷◌ m) (recursive_directory_iterator inner)))
      (map (◌∷◌ n) (recursive_directory_iterator es)),
  direct-prefixed_twice n m (recursive_directory_iterator inner),
  direct-prefixed n es,
)

direct_of_all : (es : Entries) → direct (recursive_directory_iterator es) ≡ directory_iterator es
unfolding recursive_directory_iterator directory_iterator
direct_of_all nothing = refl
direct_of_all (file n es) = rw (direct_of_all es)
direct_of_all (symlink n target es) = rw (direct_of_all es)
direct_of_all (directory n inner es) = rw (
  direct-append (map (◌∷◌ n) (recursive_directory_iterator inner))
      (recursive_directory_iterator es),
  direct-prefixed n inner,
  direct_of_all es,
)

prints_targets :
    (es : Entries) (paths : List EntryPath) (fs : List Found)
    → map (lookup es) paths ≡ map some fs
    → print_symlinks es paths ≡ some (targets fs)
unfolding print_symlinks is_symlink read_symlink
prints_targets es [] [] h = refl
prints_targets es [] (f ∷ fs) h = ground (arith, h)
prints_targets es (path ∷ paths) [] h = ground (arith, h)
prints_targets es (path ∷ paths) (a_file ∷ fs) h =
    ground (arith, h, prints_targets es paths fs (ground (arith, h)))
prints_targets es (path ∷ paths) (a_directory ∷ fs) h =
    ground (arith, h, prints_targets es paths fs (ground (arith, h)))
prints_targets es (path ∷ paths) (a_symlink target ∷ fs) h =
    ground (arith, h, prints_targets es paths fs (ground (arith, h)))

-- Where in every directory the names differ, the recursive iterator gives a path for every entry, and
-- its paths lead to the entries, a directory before what it holds, and to as many as there are;
-- dir_iterator.cpp prints those of them that have one name, an empty line, and all of them; and
-- dir_symlink.cpp prints the targets of all symbolic links, in this order, without an exception.
pub listings_are_complete :
    (es : Entries)
    → HasDistinctNames es
    → let all = recursive_directory_iterator es in
      ((n : Name) (path : EntryPath) (f : Found)
        → lookup es (n ∷ path) ≡ some f
        → IsListed (n ∷ path) all)
      × (map (lookup es) all ≡ map some (contents es))
      × (dir_iterator (some es) ≡ some (direct all, all))
      × (dir_symlink (some es) ≡ some (targets (contents es)))
unfolding dir_iterator dir_symlink
listings_are_complete es h = (
  lookup-IsListed es,
  reached es h,
  rw (direct_of_all es),
  prints_targets es _ (contents es) (reached es h),
)
