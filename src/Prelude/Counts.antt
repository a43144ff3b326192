-- ===== src/Prelude/Counts.antt =====
-- Lists of threads: the one with an index, and how many satisfy a test.
use Prim.Native.Nat.{ℕ, zero, suc, ◌+◌, ◌≤◌}
use mathlib.Core.Path.{◌≡◌, subst}
use mathlib.Core.List.{List, [], ◌∷◌}
use mathlib.Core.Option.{Option, none, some}
use native.Mathlib.Omega.{arith}
use c_programming_for_linux.Prelude.Lists.{length, set, All}

module _ {ℓ} {A : Type ℓ} where
  abbrev pub get_elem? : List A → ℕ → Option A
  get_elem? [] i = none
  get_elem? (x ∷ xs) zero = some x
  get_elem? (x ∷ xs) (suc i) = get_elem? xs i

  abbrev pub sum_by : (A → ℕ) → List A → ℕ
  sum_by f [] = 0
  sum_by f (x ∷ xs) = f x + sum_by f xs

  pub sum_by-set :
      (f : A → ℕ) (xs : List A) (i : ℕ) (x x' : A)
      → get_elem? xs i ≡ some x
      → sum_by f (set xs i x') + f x ≡ sum_by f xs + f x'
  sum_by-set f [] i x x' e = ground (arith, e)
  sum_by-set f (y ∷ xs) zero x x' e = ground (arith, e)
  sum_by-set f (y ∷ xs) (suc i) x x' e = omega (arith, sum_by-set f xs i x x' e)

  pub sum_by-get :
      (f : A → ℕ) (xs : List A) (i : ℕ) (x : A) → get_elem? xs i ≡ some x → f x ≤ sum_by f xs
  sum_by-get f [] i x e = ground (arith, e)
  sum_by-get f (y ∷ xs) zero x e = ground (arith, e)
  sum_by-get f (y ∷ xs) (suc i) x e = omega (arith, sum_by-get f xs i x e)

  pub All-set {κ} :
      (P : A → Type κ) (xs : List A) (i : ℕ) (x' : A) → All P xs → P x' → All P (set xs i x')
  All-set P [] i x' h p = h
  All-set P (x ∷ xs) zero x' h p = (p, h.1)
  All-set P (x ∷ xs) (suc i) x' h p = (h.0, All-set P xs i x' h.1 p)

  pub All-get {κ} :
      (P : A → Type κ) (xs : List A) (i : ℕ) (x : A) → All P xs → get_elem? xs i ≡ some x → P x
  All-get P [] i x h e = absurd (ground (arith, e))
  All-get P (y ∷ xs) zero x h e = subst P (ground (arith, e)) h.0
  All-get P (y ∷ xs) (suc i) x h e = All-get P xs i x h.1 e

  pub All-map {κ κ'} :
      (P : A → Type κ) (Q : A → Type κ')
      → ((x : A) → P x → Q x)
      → (xs : List A) → All P xs
      → All Q xs
  All-map P Q f [] h = tt
  All-map P Q f (x ∷ xs) h = (f x h.0, All-map P Q f xs h.1)

  sum_by-le_length : (f : A → ℕ) → ((x : A) → f x ≤ 1) → (xs : List A) → sum_by f xs ≤ length xs
  sum_by-le_length f le [] = omega arith
  sum_by-le_length f le (x ∷ xs) = omega (arith, le x, sum_by-le_length f le xs)

  -- A test that holds as often as there are elements holds for all.
  pub sum_by-full :
      (f : A → ℕ)
      → ((x : A) → f x ≤ 1)
      → (xs : List A) → sum_by f xs ≡ length xs
      → All (λ x. f x ≡ 1) xs
  sum_by-full f le [] e = tt
  sum_by-full f le (x ∷ xs) e =
      let here = le x in
      let rest = sum_by-le_length f le xs in
      (omega (arith, here, rest, e), sum_by-full f le xs (omega (arith, here, rest, e)))

  -- Every element satisfies the predicate at its number.
  abbrev pub AllFrom {κ} : (ℕ → A → Type κ) → ℕ → List A → Type κ
  AllFrom P k [] = Unit
  AllFrom P k (x ∷ xs) = P k x × AllFrom P (k + 1) xs

  pub AllFrom-set {κ} :
      (P : ℕ → A → Type κ) (k : ℕ) (xs : List A) (i : ℕ) (x' : A)
      → AllFrom P k xs
      → P (k + i) x'
      → AllFrom P k (set xs i x')
  AllFrom-set P k [] i x' h p = h
  AllFrom-set P k (x ∷ xs) zero x' h p = (subst (λ n. P n x') (omega arith) p, h.1)
  AllFrom-set P k (x ∷ xs) (suc i) x' h p =
      (h.0, AllFrom-set P (k + 1) xs i x' h.1 (subst (λ n. P n x') (omega arith) p))

  pub AllFrom-get {κ} :
      (P : ℕ → A → Type κ) (k : ℕ) (xs : List A) (i : ℕ) (x : A)
      → AllFrom P k xs
      → get_elem? xs i ≡ some x
      → P (k + i) x
  AllFrom-get P k [] i x h e = absurd (ground (arith, e))
  AllFrom-get P k (y ∷ xs) zero x h e =
      subst (λ n. P n x) (omega arith) (subst (P k) (ground (arith, e)) h.0)
  AllFrom-get P k (y ∷ xs) (suc i) x h e =
      subst (λ n. P n x) (omega arith) (AllFrom-get P (k + 1) xs i x h.1 e)
