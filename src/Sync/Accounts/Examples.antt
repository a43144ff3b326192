-- ===== src/Sync/Accounts/Examples.antt =====
-- Chapter 6/data-race.cpp: the transfers of `main`, 10 and 20 from Bill's 100 to John's 50.
use c_programming_for_linux.Prelude.{◌≡◌, refl, run}
use c_programming_for_linux.Sync.Accounts.{main_started, step}
use c_programming_for_linux.Sync.Accounts.Races.{one_by_one}

one_by_one_moves_money :
    let s = run (step 10 20) one_by_one (main_started 100 50) in
    (s.bill_account ≡ 70) × (s.john_account ≡ 80)
unfolding run step
one_by_one_moves_money = (refl, refl)
