-- ===== src/Filesystem/Listing/Examples.antt =====
-- Chapter 3/dir_iterator.cpp and Chapter 3/dir_symlink.cpp: a directory with a file, a link and a
-- directory that holds a link.
use mathlib.Core.Option
use c_programming_for_linux.Prelude.{◌≡◌, refl, [], ◌∷◌, map, some}
use c_programming_for_linux.Filesystem.Listing.{
  Name, EntryPath, Found, Entries, nothing, file, symlink, directory, recursive_directory_iterator,
  lookup, is_symlink, read_symlink, print_symlinks, dir_iterator, dir_symlink,
}
use c_programming_for_linux.Filesystem.Listing.Reached.{HasDistinctNames, contents, IsListed}
use c_programming_for_linux.Filesystem.Listing.Printed.{direct, targets, listings_are_complete}

abbrev test_dir : Entries
test_dir = file 1 (directory 2 (symlink 1 (7 ∷ []) nothing) (symlink 3 (8 ∷ 9 ∷ []) nothing))

links_of_test_dir : dir_symlink (some test_dir) ≡ some ((7 ∷ []) ∷ (8 ∷ 9 ∷ []) ∷ [])
unfolding dir_symlink Option.bind print_symlinks recursive_directory_iterator is_symlink
    read_symlink lookup
links_of_test_dir = refl

test_dir-HasDistinctNames : HasDistinctNames test_dir
test_dir-HasDistinctNames = ((refl, (refl, tt)), ((refl, tt), (tt, tt), (tt, tt)))

listings_are_complete_example :
    let all = recursive_directory_iterator test_dir in
    ((n : Name) (path : EntryPath) (f : Found)
      → lookup test_dir (n ∷ path) ≡ some f
      → IsListed (n ∷ path) all)
    × (map (lookup test_dir) all ≡ map some (contents test_dir))
    × (dir_iterator (some test_dir) ≡ some (direct all, all))
    × (dir_symlink (some test_dir) ≡ some (targets (contents test_dir)))
listings_are_complete_example = listings_are_complete test_dir test_dir-HasDistinctNames
