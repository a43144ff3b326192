-- ===== src/Resources/Handles.antt =====
-- Variables that hold a handle or none, and the resources that are live. Each acquisition has a
-- number of its own; a variable whose lifetime has ended holds no handle.
use c_programming_for_linux.Prelude.{
  ℕ, zero, suc, ◌+◌, ◌≤◌, ◌<◌, ◌≡◌, refl, Bool, true, false, List, [], ◌∷◌, ◌++◌, Option, none,
  some, ◌==◌, if◌then◌else◌, arith, length, set, length-set, length-append,
}

abbrev pub Handle : Type 0
Handle = Option ℕ

-- `released_twice` says that something was released that was not live.
pub record State : Type 0 where
  pub vars : List Handle
  pub live : ℕ → Bool
  pub next : ℕ
  pub released_twice : Bool

abbrev pub empty : State
empty = record { vars = []; live = λ r. false; next = 0; released_twice = false }

-- The handle of a variable; none where there is no such variable.
abbrev pub get : List Handle → ℕ → Handle
get [] i = none
get (v ∷ vs) zero = v
get (v ∷ vs) (suc i) = get vs i

abbrev pub update : (ℕ → Bool) → ℕ → Bool → ℕ → Bool
update f r b q = if r == q then b else f q

unfoldable pub acquire : State → State
acquire s = record s {
  vars = s.vars ++ some s.next ∷ [];
  live = update s.live s.next true;
  next = s.next + 1;
}

unfoldable pub release : Handle → State → State
release none s = s
release (some r) s = record s {
  live = update s.live r false;
  released_twice = if s.live r then s.released_twice else true;
}

-- How many variables hold a resource.
abbrev pub holds : ℕ → Handle → ℕ
holds r none = 0
holds r (some q) = if q == r then 1 else 0

abbrev pub owners : ℕ → List Handle → ℕ
owners r [] = 0
owners r (v ∷ vs) = holds r v + owners r vs

pub owners-append : (r : ℕ) (vs ws : List Handle) → owners r (vs ++ ws) ≡ owners r vs + owners r ws
owners-append r [] ws = omega arith
owners-append r (v ∷ vs) ws = omega (arith, owners-append r vs ws)

pub owners-set :
    (r : ℕ) (vs : List Handle) (i : ℕ) (v : Handle)
    → i < length vs
    → owners r (set vs i v) + holds r (get vs i) ≡ owners r vs + holds r v
owners-set r [] i v h = absurd (omega arith)
owners-set r (w ∷ vs) zero v h = omega arith
owners-set r (w ∷ vs) (suc i) v h = omega (arith, owners-set r vs i v (omega arith))

pub get-set_self : (vs : List Handle) (i : ℕ) → get (set vs i none) i ≡ none
get-set_self [] i = refl
get-set_self (w ∷ vs) zero = refl
get-set_self (w ∷ vs) (suc i) = get-set_self vs i

pub get-append : (vs ws : List Handle) (i : ℕ) → i < length vs → get (vs ++ ws) i ≡ get vs i
get-append [] ws i h = absurd (omega arith)
get-append (v ∷ vs) ws zero h = refl
get-append (v ∷ vs) ws (suc i) h = get-append vs ws i (omega arith)

pub get-set_other : (vs : List Handle) (i j : ℕ) → get (set vs i (get vs j)) j ≡ get vs j
get-set_other [] i j = refl
get-set_other (w ∷ vs) zero zero = refl
get-set_other (w ∷ vs) zero (suc j) = refl
get-set_other (w ∷ vs) (suc i) zero = refl
get-set_other (w ∷ vs) (suc i) (suc j) = get-set_other vs i j

pub holds-le-owners : (r : ℕ) (vs : List Handle) (i : ℕ) → holds r (get vs i) ≤ owners r vs
holds-le-owners r [] i = omega arith
holds-le-owners r (v ∷ vs) zero = omega arith
holds-le-owners r (v ∷ vs) (suc i) = omega (arith, holds-le-owners r vs i)

-- Exactly the live resources are held, each by one variable, and nothing was released twice.
pub record IsOwned (s : State) : Type 0 where
  pub counted : (r : ℕ) → owners r s.vars ≡ (if s.live r then 1 else 0)
  pub fresh : (r : ℕ) → s.next ≤ r → s.live r ≡ false
  pub once : s.released_twice ≡ false

pub empty-IsOwned : IsOwned empty
empty-IsOwned = record { counted = λ r. refl; fresh = λ r h. refl; once = refl }

pub acquire-IsOwned : (s : State) → IsOwned s → IsOwned (acquire s)
unfolding acquire
acquire-IsOwned s v = record {
  counted = λ r. ground (arith, owners-append r s.vars (some s.next ∷ []), v.counted r, v.fresh r);
  fresh = λ r h. ground (arith, v.fresh r);
  once = v.once;
}

-- A variable gives up its resource.
release_held-IsOwned :
    (s : State) (i : ℕ) (g : Handle)
    → get s.vars i ≡ g
    → i < length s.vars
    → IsOwned s
    → IsOwned (record (release g s) { vars = set s.vars i none })
unfolding release
release_held-IsOwned s i none e h v = record {
  counted = λ r. ground (arith, e, owners-set r s.vars i none h, v.counted r);
  fresh = v.fresh;
  once = v.once;
}
release_held-IsOwned s i (some q) e h v = record {
  counted = λ r. ground (
    arith,
    e,
    owners-set r s.vars i none h,
    v.counted r,
    v.counted q,
    holds-le-owners q s.vars i,
  );
  fresh = λ r k. ground (arith, v.fresh r);
  once = ground (arith, e, v.once, v.counted q, holds-le-owners q s.vars i);
}

pub release-IsOwned :
    (s : State) (i : ℕ)
    → i < length s.vars
    → IsOwned s
    → IsOwned (record (release (get s.vars i) s) { vars = set s.vars i none })
release-IsOwned s i h v = release_held-IsOwned s i (get s.vars i) refl h v

-- How many hold a resource after one variable takes another one's, and after a new variable does.
pub owners-pass :
    (r : ℕ) (vs : List Handle) (i j : ℕ)
    → i < length vs
    → j < length vs
    → owners r (set (set vs i (get vs j)) j none) + holds r (get vs i) ≡ owners r vs
owners-pass r vs i j hi hj =
    let first = owners-set r vs i (get vs j) hi in
    let in_range : j < length (set vs i (get vs j)) = omega (arith, length-set vs i (get vs j)) in
    let second = owners-set r (set vs i (get vs j)) j none in_range in
    ground (arith, first, second, get-set_other vs i j)

pub owners-copy :
    (r : ℕ) (vs : List Handle) (i : ℕ)
    → i < length vs
    → owners r (set (vs ++ get vs i ∷ []) i none) ≡ owners r vs
owners-copy r vs i h =
    let in_range : i < length (vs ++ get vs i ∷ []) =
      omega (arith, length-append vs (get vs i ∷ [])) in
    let cleared = owners-set r (vs ++ get vs i ∷ []) i none in_range in
    ground (arith, cleared, get-append vs (get vs i ∷ []) i h, owners-append r vs (get vs i ∷ []))

-- A variable passes its resource to another one, which held none; the two may be the same.
pub pass-IsOwned :
    (s : State) (i j : ℕ)
    → i < length s.vars
    → j < length s.vars
    → get s.vars i ≡ none
    → IsOwned s
    → IsOwned (record s { vars = set (set s.vars i (get s.vars j)) j none })
pass-IsOwned s i j hi hj empty v = record {
  counted = λ r. ground (arith, owners-pass r s.vars i j hi hj, empty, v.counted r);
  fresh = v.fresh;
  once = v.once;
}

-- A new variable takes the resource of another one.
pub copy-IsOwned :
    (s : State) (other : ℕ)
    → other < length s.vars
    → IsOwned s
    → IsOwned (record s { vars = set (s.vars ++ get s.vars other ∷ []) other none })
copy-IsOwned s other h v = record {
  counted = λ r. ground (arith, owners-copy r s.vars other h, v.counted r);
  fresh = v.fresh;
  once = v.once;
}
