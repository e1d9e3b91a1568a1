-- ===== src/Treasury/Snapshots.antt =====
-- What a snapshot of the treasury compares.
use offimesh.Prelude.{
  ℕ, ℤ, pos, ◌+ℤ◌, ◌-ℤ◌, ◌≡◌, refl, ap, ◌∙◌, if◌then◌else◌, some, List, [], ◌∷◌, int_laws,
}
use offimesh.Exceptions.{ok, is_ok}
use offimesh.Ledger.{Books, ensure, credit_user, debit_user, get_balance, verify_balance_integrity}
use offimesh.Ledger.Calls.{
  Call, credits, debits, transfers, locks, refunds, reads, verifies, perform, perform_all,
  empty_books,
}
use offimesh.Treasury.{
  Treasury, NombaSubAccount, success, failed, sum_of, internal_total, find_treasury, capture,
  compare_balance, store_snapshot, capture_balance_snapshot,
}
use offimesh.Treasury.Drift.{
  Moves, stays-Moves, Moves-trans, credit-Moves, debit-Moves, transfer-Moves, lock-Moves,
  refund-Moves, total-ensure,
}

-- What a call brings in: a credit or a debit that goes through.
unfoldable pub inflow : Call → Books → ℤ
inflow (credits u a r i) s = if is_ok (credit_user u a r i s).0 then a else pos 0
inflow (debits u a r i o) s = if is_ok (debit_user u a r i o s).0 then pos 0 -ℤ a else pos 0
inflow (transfers f t a r i) s = pos 0
inflow (locks u a i) s = pos 0
inflow (refunds u a i) s = pos 0
inflow (reads u) s = pos 0
inflow (verifies u) s = pos 0

unfoldable pub total_inflow : List Call → Books → ℤ
total_inflow [] s = pos 0
total_inflow (c ∷ cs) s = inflow c s +ℤ total_inflow cs (perform c s)

perform-Moves : (c : Call) (s : Books) → Moves (inflow c s) s (perform c s)
unfolding inflow perform get_balance verify_balance_integrity
perform-Moves (credits u a r i) s = credit-Moves u a r i s
perform-Moves (debits u a r i o) s = debit-Moves u a r i o s
perform-Moves (transfers f t a r i) s = transfer-Moves f t a r i s
perform-Moves (locks u a i) s = lock-Moves u a i s
perform-Moves (refunds u a i) s = refund-Moves u a i s
perform-Moves (reads u) s = stays-Moves s (ensure u s) (total-ensure u s)
perform-Moves (verifies u) s = stays-Moves s (ensure u s) (total-ensure u s)

perform_all-Moves : (cs : List Call) (s : Books) → Moves (total_inflow cs s) s (perform_all cs s)
unfolding total_inflow perform_all
perform_all-Moves [] s = stays-Moves s s refl
perform_all-Moves (c ∷ cs) s =
    Moves-trans (inflow c s) (total_inflow cs (perform c s)) s (perform c s)
      (perform_all cs (perform c s)) (perform-Moves c s) (perform_all-Moves cs (perform c s))

from_nothing : (x : ℤ) → pos 0 +ℤ pos 0 +ℤ x ≡ x
from_nothing x = omega int_laws

total-inflow :
    (calls : List Call)
    → internal_total (perform_all calls empty_books) ≡ total_inflow calls empty_books
unfolding sum_of
total-inflow calls =
    perform_all-Moves calls empty_books ∙ from_nothing (total_inflow calls empty_books)

-- After any sequence of ledger calls from empty tables, and with a treasury account on record, a
-- snapshot compares the balance at the bank with what the credits and debits that went through
-- have brought in: transfers, locks and refunds do not move the total, and neither do calls that
-- raise. Yet the task for it stores none: it calls the client in a way that raises, answers
-- `failed` and leaves the tables as they are.
pub capture-inflow :
    (calls : List Call) (nomba_balance_kobo : ℤ) (id : ℕ) (t : Treasury) (account : NombaSubAccount)
    → t.books ≡ perform_all calls empty_books
    → find_treasury t ≡ (ok (some account), t)
    → let total = total_inflow calls empty_books in
      ((capture id (ok nomba_balance_kobo) t).0
        ≡ ok (success nomba_balance_kobo total (nomba_balance_kobo -ℤ total)))
      × (capture_balance_snapshot id t ≡ (ok failed, t))
unfolding capture compare_balance store_snapshot capture_balance_snapshot
capture-inflow calls nomba id t account e found = (
  rw found (ap (λ x. ok (success nomba x (nomba -ℤ x))) (ap internal_total e ∙ total-inflow calls)),
  rw found refl,
)
