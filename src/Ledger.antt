-- ===== src/Ledger.antt =====
-- app/services/ledger_service.py, over the tables of app/models/ledger_balance.py and
-- app/models/ledger_entry.py. The columns that no code reads (descriptions, metadata, the time
-- stamps) are left out. `self.db.add` and `flush` are the writes of the session.
pub mod Rows
pub mod Postings
pub mod Operations
pub mod Calls
pub mod Integrity
pub mod Solvency
pub mod Effects
pub mod Locking
mod Tests
use offimesh.Prelude.{
  ℕ, ℤ, pos, ◌+ℤ◌, ◌-ℤ◌, leb_ℤ, ltb_ℤ, min_ℤ, is_zero, Bool, true, false, not, ◌&&◌, Option, none,
  some, List, [], ◌∷◌, ◌==◌, if◌then◌else◌, find, replace,
}
use offimesh.Exceptions.{
  Action, ok, pure, raise_if, modify, gets, ◌>>=◌, ◌>>◌, validation, amount_must_be_positive,
  insufficient_funds,
}

pub data EntryType : Type 0 where
  credit debit : EntryType

pub data ReferenceType : Type 0 where
  wallet_topup offline_token_issue offline_token_refund p2p_settlement withdrawal : ReferenceType
  settlement_credit settlement_debit : ReferenceType

-- The `reference_id` strings: the placeholder of a token that has no id yet, or an id.
pub data ReferenceId : Type 0 where
  pending : ReferenceId
  id : ℕ → ReferenceId

pub record LedgerBalance : Type 0 where
  pub user_id : ℕ
  pub available_balance_kobo : ℤ
  pub locked_in_offline_tokens_kobo : ℤ

pub record LedgerEntry : Type 0 where
  pub user_id : ℕ
  pub entry_type : EntryType
  pub amount_kobo : ℤ
  pub reference_type : ReferenceType
  pub reference_id : Option ReferenceId
  pub balance_after_kobo : ℤ

-- Both tables; the entries newest first.
pub record Books : Type 0 where
  pub balances : List LedgerBalance
  pub entries : List LedgerEntry

abbrev pub owner : LedgerBalance → ℕ
owner b = b.user_id

abbrev pub new_balance : ℕ → LedgerBalance
new_balance user_id = record {
  user_id = user_id;
  available_balance_kobo = pos 0;
  locked_in_offline_tokens_kobo = pos 0;
}

-- The row that the query finds, or the new one.
abbrev pub balance_of : ℕ → Books → LedgerBalance
balance_of user_id s = elim (find owner user_id s.balances) [
  | some balance ↦ balance
  | none ↦ new_balance user_id
]

-- The tables once the row is there.
unfoldable pub ensure : ℕ → Books → Books
ensure user_id s = elim (find owner user_id s.balances) [
  | some _ ↦ s
  | none ↦ record s { balances = new_balance user_id ∷ s.balances }
]

abbrev pub get_or_create_balance : ℕ → Action Books LedgerBalance
get_or_create_balance user_id s = (ok (balance_of user_id s), ensure user_id s)

-- The new attribute values of the balance, flushed together with the entry.
abbrev pub write : LedgerBalance → LedgerEntry → Books → Books
write balance entry s = record {
  balances = replace owner balance s.balances;
  entries = entry ∷ s.entries;
}

-- `LedgerEntryModel(...)`.
abbrev pub new_entry : ℕ → EntryType → ℤ → ReferenceType → Option ReferenceId → ℤ → LedgerEntry
new_entry user_id entry_type amount_kobo reference_type reference_id balance_after_kobo = record {
  user_id = user_id;
  entry_type = entry_type;
  amount_kobo = amount_kobo;
  reference_type = reference_type;
  reference_id = reference_id;
  balance_after_kobo = balance_after_kobo;
}

unfoldable pub credit_user : ℕ → ℤ → ReferenceType → Option ReferenceId → Action Books LedgerBalance
credit_user user_id amount_kobo reference_type reference_id = do
  raise_if (leb_ℤ amount_kobo (pos 0)) (validation amount_must_be_positive)
  balance ← get_or_create_balance user_id
  let available = balance.available_balance_kobo +ℤ amount_kobo
  let credited = record balance { available_balance_kobo = available }
  modify
      (write credited (new_entry user_id credit amount_kobo reference_type reference_id available))
  pure credited

unfoldable pub debit_user :
    ℕ → ℤ → ReferenceType → Option ReferenceId → Bool → Action Books LedgerBalance
debit_user user_id amount_kobo reference_type reference_id allow_overdraft = do
  raise_if (leb_ℤ amount_kobo (pos 0)) (validation amount_must_be_positive)
  balance ← get_or_create_balance user_id
  raise_if (not allow_overdraft && ltb_ℤ balance.available_balance_kobo amount_kobo)
      (insufficient_funds amount_kobo balance.available_balance_kobo)
  let available = balance.available_balance_kobo -ℤ amount_kobo
  let debited = record balance { available_balance_kobo = available }
  modify (write debited (new_entry user_id debit amount_kobo reference_type reference_id available))
  pure debited

-- Both balances are session objects, so they are read again at the end: in a transfer of a user
-- to itself they are one object.
unfoldable pub transfer :
    ℕ → ℕ → ℤ → ReferenceType → Option ReferenceId → Action Books (LedgerBalance × LedgerBalance)
transfer from_user_id to_user_id amount_kobo reference_type reference_id = do
  raise_if (leb_ℤ amount_kobo (pos 0)) (validation amount_must_be_positive)
  debit_user from_user_id amount_kobo reference_type reference_id false
  credit_user to_user_id amount_kobo reference_type reference_id
  from_balance ← get_or_create_balance from_user_id
  to_balance ← get_or_create_balance to_user_id
  pure (from_balance, to_balance)

unfoldable pub lock_for_offline_token : ℕ → ℤ → ReferenceId → Action Books LedgerBalance
lock_for_offline_token user_id amount_kobo token_id = do
  raise_if (leb_ℤ amount_kobo (pos 0)) (validation amount_must_be_positive)
  balance ← get_or_create_balance user_id
  raise_if (ltb_ℤ balance.available_balance_kobo amount_kobo)
      (insufficient_funds amount_kobo balance.available_balance_kobo)
  let available = balance.available_balance_kobo -ℤ amount_kobo
  let locked = record balance {
    available_balance_kobo = available;
    locked_in_offline_tokens_kobo = balance.locked_in_offline_tokens_kobo +ℤ amount_kobo;
  }
  modify (
      write locked
        (new_entry user_id debit amount_kobo offline_token_issue (some token_id) available))
  pure locked

refund : ℕ → ℤ → ReferenceId → LedgerBalance → Action Books LedgerBalance
refund user_id amount_kobo token_id balance = do
  let refund_amount = min_ℤ amount_kobo balance.locked_in_offline_tokens_kobo
  let available = balance.available_balance_kobo +ℤ refund_amount
  let refunded = record balance {
    available_balance_kobo = available;
    locked_in_offline_tokens_kobo = balance.locked_in_offline_tokens_kobo -ℤ refund_amount;
  }
  modify (
      write refunded
        (new_entry user_id credit refund_amount offline_token_refund (some token_id) available))
  pure refunded

unfoldable pub unlock_and_refund : ℕ → ℤ → ReferenceId → Action Books LedgerBalance
unfolding refund
unlock_and_refund user_id amount_kobo token_id =
    if leb_ℤ amount_kobo (pos 0)
    then get_or_create_balance user_id
    else (get_or_create_balance user_id >>= refund user_id amount_kobo token_id)

pub record BalanceView : Type 0 where
  pub available_kobo : ℤ
  pub locked_kobo : ℤ
  pub total_kobo : ℤ

-- The property of `LedgerBalance`.
abbrev pub total_balance_kobo : LedgerBalance → ℤ
total_balance_kobo b = b.available_balance_kobo +ℤ b.locked_in_offline_tokens_kobo

unfoldable pub get_balance : ℕ → Action Books BalanceView
get_balance user_id = do
  balance ← get_or_create_balance user_id
  pure (record {
    available_kobo = balance.available_balance_kobo;
    locked_kobo = balance.locked_in_offline_tokens_kobo;
    total_kobo = total_balance_kobo balance;
  })

abbrev pub is_type : EntryType → EntryType → Bool
is_type credit credit = true
is_type debit debit = true
is_type _ _ = false

-- `sum(e.amount_kobo for e in ...)` over the entries of one user and type.
pub sum_entries : ℕ → EntryType → List LedgerEntry → ℤ
sum_entries user_id t [] = pos 0
sum_entries user_id t (e ∷ es) =
    (if e.user_id == user_id && is_type e.entry_type t then e.amount_kobo else pos 0)
    +ℤ sum_entries user_id t es

unfoldable pub verify_balance_integrity : ℕ → Action Books Bool
verify_balance_integrity user_id = do
  balance ← get_or_create_balance user_id
  total_credits ← gets (λ s. sum_entries user_id credit s.entries)
  total_debits ← gets (λ s. sum_entries user_id debit s.entries)
  let calculated = total_credits -ℤ total_debits
  let expected = balance.available_balance_kobo +ℤ balance.locked_in_offline_tokens_kobo
  pure (is_zero (calculated -ℤ expected))
