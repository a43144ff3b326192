-- ===== src/Sync/Accounts/Races.antt =====
-- Chapter 6/data-race.cpp: what the two balances can be once both transfers have ended.
use c_programming_for_linux.Prelude.{
  ℕ, ◌+◌, ◌-◌, ◌≤◌, ◌<◌, ◌^◌, ◌≡◌, refl, ◌⊎◌, List, [], ◌∷◌, some, arith, run, run_inv, add32,
  sub32,
}
use c_programming_for_linux.Sync.Accounts.{
  Thread, first_transfer, second_transfer, Pc, State, main_started, step,
}

-- Where a transfer stands with one account: before its read, with the value read, or after its write.
data Stage : Type 0 where
  pending : Stage
  read : (temp : ℕ) → Stage
  written : Stage

abbrev withdrawal : Pc → Stage
withdrawal Pc.starting = pending
withdrawal (Pc.withdrawing temp) = read temp
withdrawal _ = written

abbrev deposit : Pc → Stage
deposit (Pc.depositing temp) = read temp
deposit Pc.finished = written
deposit _ = pending

-- What two updates `f` and `g` of one balance can have made of `start`.
abbrev Balance : (f g : ℕ → ℕ) (start : ℕ) → Stage → Stage → ℕ → Type 0
Balance f g start pending pending now = now ≡ start
Balance f g start pending (read t) now = (now ≡ start) × (t ≡ start)
Balance f g start pending written now = now ≡ g start
Balance f g start (read t) pending now = (now ≡ start) × (t ≡ start)
Balance f g start (read t) (read u) now = (now ≡ start) × (t ≡ start) × (u ≡ start)
Balance f g start (read t) written now = (now ≡ g start) × ((t ≡ start) ⊎ (t ≡ g start))
Balance f g start written pending now = now ≡ f start
Balance f g start written (read u) now = (now ≡ f start) × ((u ≡ start) ⊎ (u ≡ f start))
Balance f g start written written now =
    (now ≡ f start) ⊎ (now ≡ g start) ⊎ (now ≡ g (f start)) ⊎ (now ≡ f (g start))

module _ (a b bill john : ℕ) where
  abbrev Inv : State → Type 0
  Inv s =
      Balance (λ x. sub32 x a) (λ x. sub32 x b) bill (withdrawal s.first_pc)
        (withdrawal s.second_pc) s.bill_account
      × Balance (λ x. add32 x a) (λ x. add32 x b) john (deposit s.first_pc) (deposit s.second_pc)
          s.john_account

  step-Inv : (t : Thread) (s s' : State) → Inv s → step a b t s ≡ some s' → Inv s'
  unfolding step
  step-Inv first_transfer s s' v e = ground arith
  step-Inv second_transfer s s' v e = ground arith

  run-Inv : (ts : List Thread) → Inv (run (step a b) ts (main_started bill john))
  run-Inv ts = run_inv (step a b) Inv step-Inv ts (main_started bill john) (refl, refl)

-- Both transfers have ended.
abbrev pub Finished : State → Type 0
Finished s = (s.first_pc ≡ Pc.finished) × (s.second_pc ≡ Pc.finished)

-- Where nothing wraps, whatever the schedule: once both transfers have ended, the first account has
-- lost both amounts or only one of them, and the second has gained both or only one of them.
pub transfer_outcomes :
    (a b bill john : ℕ) (ts : List Thread)
    → a + b ≤ bill
    → bill < 2 ^ 32
    → john + a + b < 2 ^ 32
    → let s = run (step a b) ts (main_started bill john) in
      Finished s
      → ((s.bill_account ≡ bill - a - b)
          ⊎ (s.bill_account ≡ bill - a)
          ⊎ (s.bill_account ≡ bill - b))
        × ((s.john_account ≡ john + a + b)
            ⊎ (s.john_account ≡ john + a)
            ⊎ (s.john_account ≡ john + b))
transfer_outcomes a b bill john ts enough small fits done = ground (arith, run-Inv a b bill john ts)

-- One transfer after the other, and a schedule that reads the second balance in both transfers
-- before either writes it.
abbrev pub one_by_one : List Thread
one_by_one =
    first_transfer ∷ first_transfer ∷ first_transfer ∷ first_transfer ∷ second_transfer
    ∷ second_transfer ∷ second_transfer ∷ second_transfer ∷ []

abbrev pub racing : List Thread
racing =
    first_transfer ∷ first_transfer ∷ second_transfer ∷ second_transfer ∷ first_transfer
    ∷ second_transfer ∷ first_transfer ∷ second_transfer ∷ []

-- Where nothing wraps, transfers that run one after the other move both amounts.
pub one_by_one_moves_all :
    (a b bill john : ℕ)
    → a + b ≤ bill
    → bill < 2 ^ 32
    → john + a + b < 2 ^ 32
    → let s = run (step a b) one_by_one (main_started bill john) in
      Finished s × (s.bill_account ≡ bill - a - b) × (s.john_account ≡ john + a + b)
unfolding run step
one_by_one_moves_all a b bill john enough small fits = ((refl, refl), omega arith, omega arith)

-- Where nothing wraps, the racing schedule takes both amounts from the first account and gives the
-- second only the later one: `a` is lost.
pub racing_loses_deposit :
    (a b bill john : ℕ)
    → a + b ≤ bill
    → bill < 2 ^ 32
    → john + a + b < 2 ^ 32
    → let s = run (step a b) racing (main_started bill john) in
      Finished s × (s.bill_account + s.john_account + a ≡ bill + john)
unfolding run step
racing_loses_deposit a b bill john enough small fits = ((refl, refl), omega arith)
