-- ===== src/Prelude/Interleaving.antt =====
-- Interleavings of threads: a step function names the thread that moves and answers `none` where
-- that thread is blocked or has ended. A schedule is a list of threads; a turn given to a thread
-- that cannot move is lost.
use Prim.Native.Nat.{ℕ, zero, suc, ◌<◌}
use mathlib.Core.Path.{◌≡◌, refl}
use mathlib.Core.Logic.{◌≢◌, ◌⊎◌, inl, inr}
use mathlib.Core.Bool.{Bool, true, false}
use mathlib.Core.List.{List, [], ◌∷◌, ◌++◌}
use mathlib.Core.Option.{Option, none, some}
use native.Mathlib.Omega.{arith}
use c_programming_for_linux.Prelude.Tests.{Bool-cases, Option-cases}

-- The state after a turn.
abbrev pub after {ℓ} : {S : Type ℓ} → S → Option S → S
after s none = s
after s (some t) = t

module _ {S T : Type 0} (step : T → S → Option S) where
  unfoldable pub run : List T → S → S
  run [] s = s
  run (t ∷ ts) s = run ts (after s (step t s))

  pub run-append : (ts us : List T) (s : S) → run (ts ++ us) s ≡ run us (run ts s)
  unfolding run
  run-append [] us s = refl
  run-append (t ∷ ts) us s = run-append ts us (after s (step t s))

  after-keeps {ℓ} :
      (P : S → Type ℓ)
      → ((t : T) (s s' : S) → P s → step t s ≡ some s' → P s')
      → (t : T) (s : S) → P s
      → P (after s (step t s))
  after-keeps P keep t s h = elim (Option-cases (step t s)) [
    | inl e ↦ rw e h
    | inr (s', e) ↦ rw e (keep t s s' h e)
  ]

  -- What every step keeps, every schedule keeps.
  pub run_inv {ℓ} :
      (P : S → Type ℓ)
      → ((t : T) (s s' : S) → P s → step t s ≡ some s' → P s')
      → (ts : List T) (s : S) → P s
      → P (run ts s)
  unfolding run
  run_inv P keep [] s h = h
  run_inv P keep (t ∷ ts) s h = run_inv P keep ts (after s (step t s)) (after-keeps P keep t s h)

  -- If every move lowers a measure, and some thread can move until the work is done, then from
  -- every state of the invariant some schedule does the work.
  pub run_completes :
      (P : S → Type 0) (done : S → Bool) (measure : S → ℕ)
      → ((t : T) (s s' : S) → P s → step t s ≡ some s' → P s')
      → ((t : T) (s s' : S) → P s → step t s ≡ some s' → measure s' < measure s)
      → ((s : S) → P s → done s ≡ false → (t : T) × (step t s ≢ none))
      → (n : ℕ) (s : S) → measure s < n
      → P s
      → (ts : List T) × (done (run ts s) ≡ true)
  unfolding run
  run_completes P done measure keep lower progress zero s m h = absurd (omega arith)
  run_completes P done measure keep lower progress (suc n) s m h = elim (Bool-cases (done s)) [
    | inl e ↦ ([], e)
    | inr e ↦
        let (t, moves) = progress s h e in
        elim (Option-cases (step t s)) [
          | inl stuck ↦ absurd (moves stuck)
          | inr (s', moved) ↦
              let less : measure s' < measure s = lower t s s' h moved in
              let (ts, fin) =
                run_completes P done measure keep lower progress n s' (omega arith)
                  (keep t s s' h moved) in
              (t ∷ ts, rw moved fin)
        ]
  ]

-- A program refines another one if each of its moves is, through the abstraction, no move or one move
-- of the other; then every schedule of the one has a schedule of the other that ends alike.
module _ {S T A U : Type 0} (step : T → S → Option S) (abstract_step : U → A → Option A) where
  pub run_refines :
      (P : S → Type 0) (abstraction : S → A)
      → ((t : T) (s s' : S) → P s → step t s ≡ some s' → P s')
      → ((t : T) (s s' : S)
          → P s
          → step t s ≡ some s'
          → (abstraction s' ≡ abstraction s)
            ⊎ ((u : U) × (abstract_step u (abstraction s) ≡ some (abstraction s'))))
      → (ts : List T) (s : S) → P s
      → (us : List U) × (run abstract_step us (abstraction s) ≡ abstraction (run step ts s))
  unfolding run
  run_refines P abstraction keep simulate [] s h = ([], refl)
  run_refines P abstraction keep simulate (t ∷ ts) s h = elim (Option-cases (step t s)) [
    | inl stuck ↦ rw stuck (run_refines P abstraction keep simulate ts s h)
    | inr (s', moved) ↦
        let (us, rest) = run_refines P abstraction keep simulate ts s' (keep t s s' h moved) in
        rw moved (elim (simulate t s s' h moved) [
          | inl same ↦ (us, rw (← same) rest)
          | inr (u, steps) ↦ (u ∷ us, rw steps rest)
        ])
  ]
