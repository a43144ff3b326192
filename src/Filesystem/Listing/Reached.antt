-- ===== src/Filesystem/Listing/Reached.antt =====
-- Chapter 3/dir_iterator.cpp and Chapter 3/dir_symlink.cpp: the paths that the iterators give.
use mathlib.Core.List.{map-append}
use c_programming_for_linux.Prelude.{
  ◌≡◌, refl, true, false, List, [], ◌∷◌, ◌++◌, map, Option, some, ◌==◌, if◌then◌else◌, All,
  All-append, Bool-cases, inl, inr, ◌⊎◌, ==_iff, arith,
}
use c_programming_for_linux.Filesystem.Listing.{
  Name, EntryPath, Entries, nothing, file, symlink, directory, Found, a_file, a_directory,
  a_symlink, recursive_directory_iterator, lookup, leaf,
}

-- No entry has the name.
abbrev pub IsNew : Name → Entries → Type 0
IsNew n nothing = Unit
IsNew n (file m es) = ((n == m) ≡ false) × IsNew n es
IsNew n (symlink m target es) = ((n == m) ≡ false) × IsNew n es
IsNew n (directory m inner es) = ((n == m) ≡ false) × IsNew n es

-- In every directory the names differ.
abbrev pub HasDistinctNames : Entries → Type 0
HasDistinctNames nothing = Unit
HasDistinctNames (file n es) = IsNew n es × HasDistinctNames es
HasDistinctNames (symlink n target es) = IsNew n es × HasDistinctNames es
HasDistinctNames (directory n inner es) = IsNew n es × HasDistinctNames inner × HasDistinctNames es

-- The entries themselves, a directory before what it holds.
abbrev pub contents : Entries → List Found
contents nothing = []
contents (file n es) = a_file ∷ contents es
contents (symlink n target es) = a_symlink target ∷ contents es
contents (directory n inner es) = a_directory ∷ contents inner ++ contents es

-- A path that begins with another name.
abbrev StartsElsewhere : Name → EntryPath → Type 0
StartsElsewhere n [] = ⊥
StartsElsewhere n (m ∷ path) = (n == m) ≡ false

module _ {ℓ} {A : Type ℓ} where
  map-agree {κ} :
      {B : Type κ} (f g : A → B) (xs : List A) → All (λ x. f x ≡ g x) xs → map f xs ≡ map g xs
  map-agree f g [] h = refl
  map-agree f g (x ∷ xs) h = rw (h.0, map-agree f g xs h.1)

  map-composed {κ} :
      {B : Type κ} (f : A → B) (g : A → A) (h : A → B) (xs : List A)
      → ((x : A) → f (g x) ≡ h x)
      → map f (map g xs) ≡ map h xs
  map-composed f g h [] e = refl
  map-composed f g h (x ∷ xs) e = rw (e x, map-composed f g h xs e)

==_refl : (n : Name) → (n == n) ≡ true
==_refl n = ground arith

prefixed-All :
    (n m : Name) (paths : List EntryPath)
    → (n == m) ≡ false
    → All (StartsElsewhere n) (map (◌∷◌ m) paths)
prefixed-All n m [] h = tt
prefixed-All n m (path ∷ paths) h = (h, prefixed-All n m paths h)

new_names :
    (n : Name) (es : Entries)
    → IsNew n es
    → All (StartsElsewhere n) (recursive_directory_iterator es)
unfolding recursive_directory_iterator
new_names n nothing h = tt
new_names n (file m es) h = (h.0, new_names n es h.1)
new_names n (symlink m target es) h = (h.0, new_names n es h.1)
new_names n (directory m inner es) h =
    (h.0, All-append _ _ _ (prefixed-All n m _ h.0) (new_names n es h.1))

-- `f` looks an entry `n` up before the others, which `k` goes on from.
module _ (f k : EntryPath → Option Found) (n : Name) (es : Entries)
    (f-cons : (m : Name) (path : EntryPath)
      → f (m ∷ path) ≡ (if n == m then k path else lookup es (m ∷ path))) where
  agreeing :
      (paths : List EntryPath)
      → All (StartsElsewhere n) paths
      → All (λ path. f path ≡ lookup es path) paths
  agreeing [] h = tt
  agreeing ([] ∷ paths) h = elim h.0 [ ]
  agreeing ((m ∷ path) ∷ paths) h = (rw (f-cons m path, h.0), agreeing paths h.1)

  passes :
      IsNew n es
      → map f (recursive_directory_iterator es) ≡ map (lookup es) (recursive_directory_iterator es)
  passes new = map-agree f (lookup es) _ (agreeing _ (new_names n es new))

  found_first : (path : EntryPath) → f (n ∷ path) ≡ k path
  found_first path = rw (f-cons n path, ==_refl n)

pub reached :
    (es : Entries)
    → HasDistinctNames es
    → map (lookup es) (recursive_directory_iterator es) ≡ map some (contents es)
unfolding recursive_directory_iterator lookup
reached nothing h = refl
reached (file n es) h =
    rw (
      ==_refl n,
      passes (lookup (file n es)) (leaf a_file) n es (λ m path. refl) h.0,
      reached es h.1,
    )
reached (symlink n target es) h = rw (
  ==_refl n,
  passes (lookup (symlink n target es)) (leaf (a_symlink target)) n es (λ m path. refl) h.0,
  reached es h.1,
)
reached (directory n inner es) h =
    let f = lookup (directory n inner es) in
    rw (
      ==_refl n,
      map-append f (map (◌∷◌ n) (recursive_directory_iterator inner))
          (recursive_directory_iterator es),
      map-composed f (◌∷◌ n) (lookup inner) (recursive_directory_iterator inner)
          (found_first f (lookup inner) n es (λ m path. refl)),
      passes f (lookup inner) n es (λ m path. refl) h.0,
      map-append some (contents inner) (contents es),
      reached inner h.1,
      reached es h.2,
    )

-- A path is among others.
abbrev pub IsListed : EntryPath → List EntryPath → Type 0
IsListed path [] = ⊥
IsListed path (p ∷ paths) = (path ≡ p) ⊎ IsListed path paths

IsListed-append_left :
    (path : EntryPath) (ps qs : List EntryPath) → IsListed path ps → IsListed path (ps ++ qs)
IsListed-append_left path [] qs h = absurd h
IsListed-append_left path (p ∷ ps) qs (inl e) = inl e
IsListed-append_left path (p ∷ ps) qs (inr h) = inr (IsListed-append_left path ps qs h)

IsListed-append_right :
    (path : EntryPath) (ps qs : List EntryPath) → IsListed path qs → IsListed path (ps ++ qs)
IsListed-append_right path [] qs h = h
IsListed-append_right path (p ∷ ps) qs h = inr (IsListed-append_right path ps qs h)

IsListed-map_cons :
    (n m : Name) (path : EntryPath) (ps : List EntryPath)
    → m ≡ n
    → IsListed path ps
    → IsListed (n ∷ path) (map (◌∷◌ m) ps)
IsListed-map_cons n m path [] e h = absurd h
IsListed-map_cons n m path (p ∷ ps) e (inl same) = inl (cc (e, same))
IsListed-map_cons n m path (p ∷ ps) e (inr h) = inr (IsListed-map_cons n m path ps e h)

found_at_first :
    (m n : Name) (found f : Found) (path : EntryPath)
    → (m == n) ≡ true
    → leaf found path ≡ some f
    → n ∷ path ≡ m ∷ []
found_at_first m n found f [] same e = cc ((==_iff m n).0 same)
found_at_first m n found f (k ∷ path) same e = ground (arith, e)

-- An entry is listed.
pub lookup-IsListed :
    (es : Entries) (n : Name) (path : EntryPath) (f : Found)
    → lookup es (n ∷ path) ≡ some f
    → IsListed (n ∷ path) (recursive_directory_iterator es)
unfolding lookup recursive_directory_iterator
lookup-IsListed nothing n path f e = ground (arith, e)
lookup-IsListed (file m es) n path f e = elim (Bool-cases (m == n)) [
  | inl same ↦ inl (found_at_first m n a_file f path same (ground (arith, e, same)))
  | inr other ↦ inr (lookup-IsListed es n path f (ground (arith, e, other)))
]
lookup-IsListed (symlink m target es) n path f e = elim (Bool-cases (m == n)) [
  | inl same ↦ inl (found_at_first m n (a_symlink target) f path same (ground (arith, e, same)))
  | inr other ↦ inr (lookup-IsListed es n path f (ground (arith, e, other)))
]
lookup-IsListed (directory m inner es) n [] f e = elim (Bool-cases (m == n)) [
  | inl same ↦ inl (cc ((==_iff m n).0 same))
  | inr other ↦
      inr (IsListed-append_right _ _ _ (lookup-IsListed es n [] f (ground (arith, e, other))))
]
lookup-IsListed (directory m inner es) n (k ∷ path) f e = elim (Bool-cases (m == n)) [
  | inl same ↦ inr (
      IsListed-append_left _ _ _ (
        IsListed-map_cons n m _ _ ((==_iff m n).0 same)
          (lookup-IsListed inner k path f (ground (arith, e, same)))))
  | inr other ↦
      inr
        (IsListed-append_right _ _ _ (lookup-IsListed es n (k ∷ path) f (ground (arith, e, other))))
]
