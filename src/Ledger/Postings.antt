-- ===== src/Ledger/Postings.antt =====
-- What one write of the ledger may do: the steps through which every operation goes.
use offimesh.Prelude.{
  ℕ, ℤ, pos, ◌+ℤ◌, ◌-ℤ◌, ◌≡◌, ap, refl, inl, inr, Bool, ◌==◌, if◌then◌else◌, Bool-cases, int_laws,
}
use offimesh.Exceptions.{Action, ◌>>=◌}
use offimesh.Ledger.{
  Books, LedgerBalance, LedgerEntry, EntryType, credit, debit, owner, is_type, ensure,
  get_or_create_balance, write, sum_entries,
}
use offimesh.Exceptions.{
  Action, Runs, Runs-bind, Runs-pure, Runs-gets, Runs-raise_if, pure, gets, raise_if, Error, ◌>>=◌,
}
use offimesh.Ledger.Rows.{available, entries-ensure}

-- The change of the available balance that an entry stands for.
abbrev pub signed : EntryType → ℤ → ℤ
signed credit a = a
signed debit a = pos 0 -ℤ a

-- Credits less debits of a user, over all entries.
abbrev pub net : ℕ → Books → ℤ
net u s = sum_entries u credit s.entries -ℤ sum_entries u debit s.entries

-- A row is opened, or one row changes with one entry that accounts for its available balance.
pub data Step (s t : Books) : Type 0 where
  opens : (u : ℕ) → t ≡ ensure u s → Step s t
  posts :
      (u : ℕ) (b : LedgerBalance) (e : LedgerEntry)
      → t ≡ write b e (ensure u s)
      → owner b ≡ u
      → e.user_id ≡ u
      → b.available_balance_kobo ≡ available u s +ℤ signed e.entry_type e.amount_kobo
      → e.balance_after_kobo ≡ b.available_balance_kobo
      → Step s t

pub data Steps : Books → Books → Type 0 where
  done : {s : Books} → Steps s s
  step : {s r t : Books} → Step s r → Steps r t → Steps s t

pub Steps-trans : {r s t : Books} → Steps r s → Steps s t → Steps r t
Steps-trans done q = q
Steps-trans (step x p) q = step x (Steps-trans p q)

-- The entry of a posting goes into exactly one of the two sums.
net_step :
    (t : EntryType) (a c d : ℤ)
    → (if is_type t credit then a else pos 0) +ℤ c -ℤ ((if is_type t debit then a else pos 0) +ℤ d)
      ≡ c -ℤ d +ℤ signed t a
net_step credit a c d = omega int_laws
net_step debit a c d = omega int_laws

pub net-ensure : (j u : ℕ) (s : Books) → net j (ensure u s) ≡ net j s
net-ensure j u s = ap (λ es. sum_entries j credit es -ℤ sum_entries j debit es) (entries-ensure u s)

pub net-write :
    (j u : ℕ) (b : LedgerBalance) (e : LedgerEntry) (s : Books)
    → e.user_id ≡ u
    → net j (write b e (ensure u s))
      ≡ (if u == j then net j s +ℤ signed e.entry_type e.amount_kobo else net j s)
unfolding sum_entries
net-write j u b e s h = elim (Bool-cases (u == j)) [
  | inl same ↦
      rw (entries-ensure u s, h, same)
        (net_step e.entry_type e.amount_kobo (sum_entries j credit s.entries)
          (sum_entries j debit s.entries))
  | inr other ↦ rw (entries-ensure u s, h, other) (omega int_laws)
]

-- The rules of `Runs` at `Steps`.
pub Steps-bind :
    {A B : Type 0} (m : Action Books A) (f : A → Action Books B)
    → Runs Steps m
    → ((a : A) → Runs Steps (f a))
    → Runs Steps (m >>= f)
Steps-bind = Runs-bind Steps (λ s. done) (λ r s t. Steps-trans)

pub Steps-pure : {A : Type 0} (a : A) → Runs Steps (pure a)
Steps-pure = Runs-pure Steps (λ s. done) (λ r s t. Steps-trans)

pub Steps-gets : {A : Type 0} (f : Books → A) → Runs Steps (gets f)
Steps-gets = Runs-gets Steps (λ s. done) (λ r s t. Steps-trans)

pub Steps-raise_if : (b : Bool) (e : Error) → Runs Steps (raise_if b e)
Steps-raise_if = Runs-raise_if Steps (λ s. done) (λ r s t. Steps-trans)

pub Steps-open : (u : ℕ) → Runs Steps (get_or_create_balance u)
Steps-open u = record { at = λ s. step (opens u refl) done }

pub ruleset steps_rules = (Steps-bind, Steps-pure, Steps-gets, Steps-raise_if, Steps-open)
