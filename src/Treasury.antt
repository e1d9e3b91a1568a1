-- ===== src/Treasury.antt =====
-- `capture_balance_snapshot` and `ensure_treasury_sub_account` of
-- app/workers/sub_account_balance_worker.py on the tables of app/models/nomba_sub_account.py and the
-- balances of the ledger. What the client answers, or that it raises, is an argument of `capture`.
pub mod Drift
pub mod Snapshots
mod Tests
use offimesh.Prelude.{
  ℕ, suc, ℤ, pos, ◌+ℤ◌, ◌-ℤ◌, Bool, Option, none, some, List, [], ◌∷◌, ◌==◌, filter_by,
}
use offimesh.Exceptions.{
  Action, Result, ok, err, pure, raise, gets, modify, ◌>>=◌, ◌>>◌, multiple_results_found,
  type_error, attribute_error,
}
use offimesh.Ledger.{Books, LedgerBalance}

-- `purpose` is a text, 1 being "operational_treasury".
pub record NombaSubAccount : Type 0 where
  pub id : ℕ
  pub nomba_sub_account_id : ℕ
  pub account_ref : ℕ
  pub purpose : ℕ

pub record SubAccountBalanceSnapshot : Type 0 where
  pub id : ℕ
  pub sub_account_id : ℕ
  pub balance_kobo : ℤ
  pub ledger_total_kobo : ℤ
  pub discrepancy_kobo : ℤ

-- `audits` counts the audit entries "treasury.balance_snapshot"; each names its snapshot "None", since
-- the row has no id before it is flushed.
pub record Treasury : Type 0 where
  pub books : Books
  pub sub_accounts : List NombaSubAccount
  pub snapshots : List SubAccountBalanceSnapshot
  pub audits : ℕ

unfoldable pub one_sub_account : List NombaSubAccount → Action Treasury (Option NombaSubAccount)
one_sub_account [] = pure none
one_sub_account (a ∷ []) = pure (some a)
one_sub_account (_ ∷ _ ∷ _) = raise multiple_results_found

abbrev is_treasury : NombaSubAccount → Bool
is_treasury a = a.purpose == 1

unfoldable pub find_treasury : Action Treasury (Option NombaSubAccount)
find_treasury t = one_sub_account (filter_by is_treasury t.sub_accounts) t

-- `func.sum` of a column, with `or 0` for no row.
unfoldable pub sum_of : (LedgerBalance → ℤ) → List LedgerBalance → ℤ
sum_of column [] = pos 0
sum_of column (b ∷ bs) = column b +ℤ sum_of column bs

abbrev pub internal_total : Books → ℤ
internal_total s =
    sum_of (λ b. b.available_balance_kobo) s.balances
    +ℤ sum_of (λ b. b.locked_in_offline_tokens_kobo) s.balances

pub data Captured : Type 0 where
  skipped failed : Captured
  success : ℤ → ℤ → ℤ → Captured

unfoldable pub store_snapshot : ℕ → NombaSubAccount → ℤ → Action Treasury Captured
store_snapshot id account nomba_balance_kobo = do
  total ← gets (λ t. internal_total t.books)
  let discrepancy = nomba_balance_kobo -ℤ total
  modify (λ t. record t {
    snapshots =
        (record {
          id = id;
          sub_account_id = account.id;
          balance_kobo = nomba_balance_kobo;
          ledger_total_kobo = total;
          discrepancy_kobo = discrepancy;
        })
        ∷ t.snapshots;
    audits = suc t.audits;
  })
  pure (success nomba_balance_kobo total discrepancy)

unfoldable pub compare_balance : ℕ → Result ℤ → NombaSubAccount → Action Treasury Captured
compare_balance id (err e) account = pure failed
compare_balance id (ok nomba_balance_kobo) account = store_snapshot id account nomba_balance_kobo

unfoldable pub capture : ℕ → Result ℤ → Action Treasury Captured
capture id answer = do
  found ← find_treasury
  elim found [ none ↦ pure skipped | some account ↦ compare_balance id answer account ]

-- `get_sub_account_balance` takes no positional argument.
unfoldable pub capture_balance_snapshot : ℕ → Action Treasury Captured
capture_balance_snapshot id = capture id (err type_error)

-- The client has no `create_sub_account`.
unfoldable pub ensure_treasury_sub_account : Action Treasury NombaSubAccount
ensure_treasury_sub_account = do
  found ← find_treasury
  elim found [ none ↦ raise attribute_error | some account ↦ pure account ]
