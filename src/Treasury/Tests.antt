-- ===== src/Treasury/Tests.antt =====
-- A treasury after five calls, two of which raise.
use offimesh.Prelude.{pos, ◌+ℤ◌, ◌-ℤ◌, ◌≡◌, refl, false, none, some, List, [], ◌∷◌}
use offimesh.Exceptions.{ok}
use offimesh.Ledger.{
  wallet_topup, p2p_settlement, pending, ensure, credit_user, debit_user, lock_for_offline_token,
  transfer,
}
use offimesh.Ledger.Calls.{
  Call, credits, debits, transfers, locks, perform, perform_all, empty_books,
}
use offimesh.Treasury.{
  Treasury, NombaSubAccount, success, failed, one_sub_account, find_treasury, capture,
  capture_balance_snapshot,
}
use offimesh.Treasury.Snapshots.{inflow, total_inflow, capture-inflow}

abbrev calls : List Call
calls =
    credits 1 (pos 500) wallet_topup none
    ∷ locks 1 (pos 200) pending
    ∷ debits 1 (pos 1000) p2p_settlement none false
    ∷ transfers 1 2 (pos 100) p2p_settlement none
    ∷ credits 2 (pos 0) wallet_topup none
    ∷ []

abbrev account : NombaSubAccount
account = record { id = 8; nomba_sub_account_id = 80; account_ref = 81; purpose = 1 }

abbrev treasury : Treasury
treasury = record {
  books = perform_all calls empty_books;
  sub_accounts = account ∷ [];
  snapshots = [];
  audits = 0;
}

brought_in : total_inflow calls empty_books ≡ pos 500
unfolding total_inflow inflow perform credit_user debit_user lock_for_offline_token transfer ensure
    ◌+ℤ◌ ◌-ℤ◌
brought_in = refl

treasury_found : find_treasury treasury ≡ (ok (some account), treasury)
unfolding find_treasury one_sub_account
treasury_found = refl

capture-inflow_example :
    ((capture 3 (ok (pos 450)) treasury).0
      ≡ ok (
          success
            (pos 450)
            (total_inflow calls empty_books)
            (pos 450 -ℤ total_inflow calls empty_books)))
    × (capture_balance_snapshot 3 treasury ≡ (ok failed, treasury))
capture-inflow_example = capture-inflow calls (pos 450) 3 treasury account refl treasury_found
