-- ===== src/Ledger/Tests.antt =====
-- Runs of the ledger on a small history, and the theorems at it.
use offimesh.Prelude.{pos, ◌+ℤ◌, ◌-ℤ◌, ◌≡◌, refl, false, List, [], ◌∷◌, arith, none}
use offimesh.Ledger.{
  Books, wallet_topup, p2p_settlement, settlement_debit, pending, id, transfer,
  lock_for_offline_token, unlock_and_refund, credit_user, debit_user, ensure,
}
use offimesh.Ledger.Rows.{available, locked}
use offimesh.Ledger.Postings.{net}
use offimesh.Ledger.Calls.{
  Call, credits, debits, transfers, locks, refunds, perform, perform_all, empty_books,
}
use offimesh.Ledger.Integrity.{perform_all-IsDerivable}
use offimesh.Ledger.Solvency.{IsSolvent, perform_all-IsSolvent}
use offimesh.Ledger.Locking.{lock-refund}

-- User 1 tops up, pays user 2, locks funds twice and gets one lock back; an overspend fails.
abbrev history : List Call
history =
    credits 1 (pos 500) wallet_topup none
    ∷ transfers 1 2 (pos 120) p2p_settlement none
    ∷ locks 1 (pos 200) pending
    ∷ debits 2 (pos 900) settlement_debit none false
    ∷ locks 1 (pos 50) pending
    ∷ refunds 1 (pos 50) (id 8)
    ∷ []

abbrev after : Books
after = perform_all history empty_books

after_balances :
    (available 1 after ≡ pos 180) × (locked 1 after ≡ pos 200) × (available 2 after ≡ pos 120)
unfolding perform_all perform credit_user debit_user transfer lock_for_offline_token
    unlock_and_refund ensure ◌+ℤ◌ ◌-ℤ◌
after_balances = (refl, refl, refl)

perform_all-IsDerivable_example : available 1 after ≡ net 1 after
perform_all-IsDerivable_example = perform_all-IsDerivable history 1

perform_all-IsSolvent_example : IsSolvent after
perform_all-IsSolvent_example =
    perform_all-IsSolvent history (tt, (tt, (tt, (refl, (tt, (tt, tt))))))

lock-refund_example :
    let s' =
      (unlock_and_refund 1 (pos 30) (id 9) (lock_for_offline_token 1 (pos 30) pending after).1).1 in
    (available 1 s' ≡ available 1 after) × (locked 1 s' ≡ locked 1 after)
unfolding perform_all perform credit_user debit_user transfer lock_for_offline_token
    unlock_and_refund ensure ◌+ℤ◌ ◌-ℤ◌
lock-refund_example =
    lock-refund 1 (pos 30) pending (id 9) after (omega arith) (omega arith) (omega arith) 1
