-- ===== src/Ledger/Integrity.antt =====
-- The balances against the entries: `verify_balance_integrity` and what it should test.
use offimesh.Prelude.{
  ℕ, ℤ, ◌+ℤ◌, ◌-ℤ◌, ◌≡◌, List, arith, is_zero, int_laws, +ℤ_parts, -ℤ_parts, sym, ◌∙◌, ap,
}
use offimesh.Exceptions.{ok}
use offimesh.Ledger.{Books, sum_entries, verify_balance_integrity}
use offimesh.Ledger.Rows.{available, locked, available-ensure, available-write, entries-ensure}
use offimesh.Ledger.Postings.{Step, opens, posts, Steps, done, step, net, net-ensure, net-write}
use offimesh.Ledger.Calls.{Call, perform_all, empty_books, perform_all-Steps}

-- Every available balance is the sum of the entries of its user.
abbrev pub IsDerivable : Books → Type 0
IsDerivable s = (u : ℕ) → available u s ≡ net u s

pub Step-IsDerivable : {s t : Books} → Step s t → IsDerivable s → IsDerivable t
Step-IsDerivable {s} {t} (opens u e) h j =
    rw e (available-ensure j u s ∙ h j ∙ sym (net-ensure j u s))
Step-IsDerivable {s} {t} (posts u b e same own whose moved after) h j =
    rw same (ground (arith, available-write j u b e s own, net-write j u b e s whose, h j))

pub Steps-IsDerivable : {s t : Books} → Steps s t → IsDerivable s → IsDerivable t
Steps-IsDerivable done h = h
Steps-IsDerivable (step x p) h = Steps-IsDerivable p (Step-IsDerivable x h)

-- After any sequence of ledger calls from empty tables, failed calls included, the available
-- balance of every user is its credit entries less its debit entries.
pub perform_all-IsDerivable :
    (cs : List Call) (u : ℕ)
    → available u (perform_all cs empty_books) ≡ net u (perform_all cs empty_books)
unfolding sum_entries
perform_all-IsDerivable cs =
    Steps-IsDerivable (perform_all-Steps cs empty_books) λ u. omega int_laws

is_zero-gap : (a l : ℤ) → is_zero (a -ℤ (a +ℤ l)) ≡ is_zero l
is_zero-gap a l = ground (arith, +ℤ_parts a l, -ℤ_parts a (a +ℤ l))

-- Where the available balance of the user is the credit entries less the debit entries, the integrity
-- check answers whether the user has nothing locked.
verify_balance_integrity-locked :
    (u : ℕ) (s : Books)
    → IsDerivable s
    → (verify_balance_integrity u s).0 ≡ ok (is_zero (locked u s))
unfolding verify_balance_integrity
verify_balance_integrity-locked u s h =
    rw (entries-ensure u s) (ap ok (rw (← h u) (is_zero-gap (available u s) (locked u s))))
