-- ===== src/Ledger/Calls.antt =====
-- A client of the ledger as the list of the calls that it makes; what a call that raised has
-- written stays in the session.
use offimesh.Prelude.{ℕ, ℤ, Bool, Option, List, [], ◌∷◌}
use offimesh.Ledger.{
  Books, ReferenceType, ReferenceId, credit_user, debit_user, transfer, lock_for_offline_token,
  unlock_and_refund, get_balance, verify_balance_integrity,
}
use offimesh.Ledger.Postings.{Steps, done, Steps-trans}
use offimesh.Ledger.Operations.{
  credit_user-Runs, debit_user-Runs, transfer-Runs, lock_for_offline_token-Runs,
  unlock_and_refund-Runs, get_balance-Runs, verify_balance_integrity-Runs,
}

pub data Call : Type 0 where
  credits : ℕ → ℤ → ReferenceType → Option ReferenceId → Call
  debits : ℕ → ℤ → ReferenceType → Option ReferenceId → Bool → Call
  transfers : ℕ → ℕ → ℤ → ReferenceType → Option ReferenceId → Call
  locks refunds : ℕ → ℤ → ReferenceId → Call
  reads verifies : ℕ → Call

unfoldable pub perform : Call → Books → Books
perform (credits u a r i) s = (credit_user u a r i s).1
perform (debits u a r i o) s = (debit_user u a r i o s).1
perform (transfers f t a r i) s = (transfer f t a r i s).1
perform (locks u a i) s = (lock_for_offline_token u a i s).1
perform (refunds u a i) s = (unlock_and_refund u a i s).1
perform (reads u) s = (get_balance u s).1
perform (verifies u) s = (verify_balance_integrity u s).1

unfoldable pub perform_all : List Call → Books → Books
perform_all [] s = s
perform_all (c ∷ cs) s = perform_all cs (perform c s)

abbrev pub empty_books : Books
empty_books = record { balances = []; entries = [] }

pub perform-Steps : (c : Call) (s : Books) → Steps s (perform c s)
unfolding perform
perform-Steps (credits u a r i) s = (credit_user-Runs u a r i).at s
perform-Steps (debits u a r i o) s = (debit_user-Runs u a r i o).at s
perform-Steps (transfers f t a r i) s = (transfer-Runs f t a r i).at s
perform-Steps (locks u a i) s = (lock_for_offline_token-Runs u a i).at s
perform-Steps (refunds u a i) s = (unlock_and_refund-Runs u a i).at s
perform-Steps (reads u) s = (get_balance-Runs u).at s
perform-Steps (verifies u) s = (verify_balance_integrity-Runs u).at s

pub perform_all-Steps : (cs : List Call) (s : Books) → Steps s (perform_all cs s)
unfolding perform_all
perform_all-Steps [] s = done
perform_all-Steps (c ∷ cs) s = Steps-trans (perform-Steps c s) (perform_all-Steps cs (perform c s))
