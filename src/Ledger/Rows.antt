-- ===== src/Ledger/Rows.antt =====
-- The balance row that a user has or would get, and how the writes of the ledger change it.
use offimesh.Prelude.{
  ℕ, ℤ, ◌≡◌, ap, inl, inr, some, arith, ◌==◌, if◌then◌else◌, find, Option-cases, key-find,
  find-replace_self, find-replace_ne,
}
use offimesh.Ledger.{Books, LedgerBalance, LedgerEntry, owner, balance_of, ensure, write}

abbrev pub available : ℕ → Books → ℤ
available u s = (balance_of u s).available_balance_kobo

abbrev pub locked : ℕ → Books → ℤ
locked u s = (balance_of u s).locked_in_offline_tokens_kobo

pub find-ensure : (u : ℕ) (s : Books) → find owner u (ensure u s).balances ≡ some (balance_of u s)
unfolding ensure
find-ensure u s = ground arith

pub owner-balance_of : (u : ℕ) (s : Books) → owner (balance_of u s) ≡ u
owner-balance_of u s = elim (Option-cases (find owner u s.balances)) [
  | inl e ↦ ground arith
  | inr (b, e) ↦ ground (arith, key-find owner u s.balances b)
]

pub balance_of-ensure : (j u : ℕ) (s : Books) → balance_of j (ensure u s) ≡ balance_of j s
unfolding ensure
balance_of-ensure j u s = ground arith

pub entries-ensure : (u : ℕ) (s : Books) → (ensure u s).entries ≡ s.entries
unfolding ensure
entries-ensure u s = ground arith

-- A flushed change of a row is seen under its owner, and no other row changes.
pub balance_of-write :
    (j u : ℕ) (b : LedgerBalance) (e : LedgerEntry) (s : Books)
    → owner b ≡ u
    → balance_of j (write b e (ensure u s)) ≡ (if u == j then b else balance_of j s)
balance_of-write j u b e s h = ground (
  arith,
  find-ensure u s,
  balance_of-ensure j u s,
  find-replace_self owner b (ensure u s).balances (balance_of u s),
  find-replace_ne owner j b (ensure u s).balances,
)

pub available-ensure : (j u : ℕ) (s : Books) → available j (ensure u s) ≡ available j s
available-ensure j u s = ap (λ b. b.available_balance_kobo) (balance_of-ensure j u s)

pub locked-ensure : (j u : ℕ) (s : Books) → locked j (ensure u s) ≡ locked j s
locked-ensure j u s = ap (λ b. b.locked_in_offline_tokens_kobo) (balance_of-ensure j u s)

pub available-write :
    (j u : ℕ) (b : LedgerBalance) (e : LedgerEntry) (s : Books)
    → owner b ≡ u
    → available j (write b e (ensure u s))
      ≡ (if u == j then b.available_balance_kobo else available j s)
available-write j u b e s h = ground (arith, balance_of-write j u b e s h)

pub locked-write :
    (j u : ℕ) (b : LedgerBalance) (e : LedgerEntry) (s : Books)
    → owner b ≡ u
    → locked j (write b e (ensure u s))
      ≡ (if u == j then b.locked_in_offline_tokens_kobo else locked j s)
locked-write j u b e s h = ground (arith, balance_of-write j u b e s h)
