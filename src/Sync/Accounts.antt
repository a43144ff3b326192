-- ===== src/Sync/Accounts.antt =====
-- Chapter 6/data-race.cpp: two transfers between the same two accounts, without a lock. Each
-- `operator-=` and `operator+=` reads the balance in one turn and writes it in another.
pub mod Races
mod Examples
use c_programming_for_linux.Prelude.{ℕ, Option, none, some, add32, sub32}

pub data Thread : Type 0 where
  first_transfer second_transfer : Thread

-- `TransferMoney`: `withdrawing` holds the `temp` of `from -= amount`, `depositing` the one of
-- `to += amount`.
pub data Pc : Type 0 where
  starting : Pc
  withdrawing : (temp : ℕ) → Pc
  withdrawn : Pc
  depositing : (temp : ℕ) → Pc
  finished : Pc

-- The balances are `unsigned`.
pub record State : Type 0 where
  pub bill_account : ℕ
  pub john_account : ℕ
  pub first_pc : Pc
  pub second_pc : Pc

pub record Move : Type 0 where
  pub from_balance : ℕ
  pub to_balance : ℕ
  pub pc : Pc

-- One turn of `TransferMoney(amount, from, to)`.
pub transfer_step : ℕ → Pc → ℕ → ℕ → Option Move
transfer_step amount Pc.starting from to =
    some (record { from_balance = from; to_balance = to; pc = Pc.withdrawing from })
transfer_step amount (Pc.withdrawing temp) from to =
    some (record { from_balance = sub32 temp amount; to_balance = to; pc = Pc.withdrawn })
transfer_step amount Pc.withdrawn from to =
    some (record { from_balance = from; to_balance = to; pc = Pc.depositing to })
transfer_step amount (Pc.depositing temp) from to =
    some (record { from_balance = from; to_balance = add32 temp amount; pc = Pc.finished })
transfer_step amount Pc.finished from to = none

abbrev pub main_started : ℕ → ℕ → State
main_started bill john = record {
  bill_account = bill;
  john_account = john;
  first_pc = Pc.starting;
  second_pc = Pc.starting;
}

pub step : ℕ → ℕ → Thread → State → Option State
unfolding transfer_step
step a b first_transfer s = elim (transfer_step a s.first_pc s.bill_account s.john_account) [
  | none ↦ none
  | some m ↦
      some
        (record s { bill_account = m.from_balance; john_account = m.to_balance; first_pc = m.pc })
]
step a b second_transfer s = elim (transfer_step b s.second_pc s.bill_account s.john_account) [
  | none ↦ none
  | some m ↦
      some
        (record s { bill_account = m.from_balance; john_account = m.to_balance; second_pc = m.pc })
]
