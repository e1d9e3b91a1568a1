-- ===== src/Ledger/Solvency.antt =====
-- No balance is overdrawn unless a caller allows it.
use offimesh.Prelude.{
  All, ℕ, ℤ, pos, ◌+ℤ◌, ◌-ℤ◌, ◌≤ℤ◌, leb_ℤ, ltb_ℤ, min_ℤ, ◌≡◌, Bool, false, List, [], ◌∷◌, arith,
  inl, inr, Bool-cases, some, +ℤ_parts, -ℤ_parts, Option,
}
use offimesh.Exceptions.{
  Action, Runs, Runs-bind, Runs-pure, Runs-raise_if, pure, raise_if, Error, ◌>>=◌,
}
use offimesh.Ledger.{
  Books, LedgerEntry, LedgerBalance, ReferenceType, ReferenceId, owner, credit, debit,
  offline_token_issue, offline_token_refund, new_entry, write, ensure, get_or_create_balance,
  credit_user, debit_user, transfer, lock_for_offline_token, unlock_and_refund, get_balance,
  verify_balance_integrity,
}
use offimesh.Ledger.Rows.{
  available, locked, available-ensure, locked-ensure, available-write, locked-write,
  owner-balance_of,
}
use offimesh.Ledger.Calls.{
  Call, credits, debits, transfers, locks, refunds, reads, verifies, perform, perform_all,
  empty_books,
}

-- Neither part of any balance is negative.
abbrev pub IsSolvent : Books → Type 0
IsSolvent s = (u : ℕ) → (pos 0 ≤ℤ available u s) × (pos 0 ≤ℤ locked u s)

-- What a run keeps.
abbrev Keeps : Books → Books → Type 0
Keeps s t = IsSolvent s → IsSolvent t

Keeps-bind :
    {A B : Type 0} (m : Action Books A) (f : A → Action Books B)
    → Runs Keeps m
    → ((a : A) → Runs Keeps (f a))
    → Runs Keeps (m >>= f)
Keeps-bind = Runs-bind Keeps (λ s h. h) (λ r s t f g h. g (f h))

Keeps-pure : {A : Type 0} (a : A) → Runs Keeps (pure a)
Keeps-pure = Runs-pure Keeps (λ s h. h) (λ r s t f g h. g (f h))

Keeps-raise_if : (b : Bool) (e : Error) → Runs Keeps (raise_if b e)
Keeps-raise_if = Runs-raise_if Keeps (λ s h. h) (λ r s t f g h. g (f h))

ensure-IsSolvent : (u : ℕ) (s : Books) → IsSolvent s → IsSolvent (ensure u s)
ensure-IsSolvent u s h j = rw (available-ensure j u s, locked-ensure j u s) (h j)

write-IsSolvent :
    (u : ℕ) (b : LedgerBalance) (e : LedgerEntry) (s : Books)
    → owner b ≡ u
    → pos 0 ≤ℤ b.available_balance_kobo
    → pos 0 ≤ℤ b.locked_in_offline_tokens_kobo
    → IsSolvent s
    → IsSolvent (write b e (ensure u s))
write-IsSolvent u b e s own a l h j =
    ground (arith, available-write j u b e s own, locked-write j u b e s own, h j)

Keeps-open : (u : ℕ) → Runs Keeps (get_or_create_balance u)
Keeps-open u = record { at = ensure-IsSolvent u }

ruleset keeps_rules = (Keeps-bind, Keeps-pure, Keeps-raise_if, Keeps-open)

credit_user-Keeps :
    (u : ℕ) (a : ℤ) (r : ReferenceType) (i : Option ReferenceId) → Runs Keeps (credit_user u a r i)
unfolding credit_user
credit_user-Keeps u a r i = record {
  at = λ s h. elim (Bool-cases (leb_ℤ a (pos 0))) [
    | inl bad ↦ rw bad h
    | inr good ↦ rw good (
        write-IsSolvent u _ (new_entry u credit a r i (available u s +ℤ a)) s (owner-balance_of u s)
          (ground (arith, +ℤ_parts (available u s) a, h u)) (h u).1 h)
  ];
}

debit_user-Keeps :
    (u : ℕ) (a : ℤ) (r : ReferenceType) (i : Option ReferenceId)
    → Runs Keeps (debit_user u a r i false)
unfolding debit_user
debit_user-Keeps u a r i = record {
  at = λ s h. elim (Bool-cases (leb_ℤ a (pos 0))) [
    | inl bad ↦ rw bad h
    | inr good ↦ rw good (elim (Bool-cases (ltb_ℤ (available u s) a)) [
      | inl short ↦ rw short (ensure-IsSolvent u s h)
      | inr enough ↦ rw enough (
          write-IsSolvent u _ (new_entry u debit a r i (available u s -ℤ a)) s
            (owner-balance_of u s) (ground (arith, -ℤ_parts (available u s) a)) (h u).1 h)
    ])
  ];
}

transfer-Keeps :
    (f t : ℕ) (a : ℤ) (r : ReferenceType) (i : Option ReferenceId) → Runs Keeps (transfer f t a r i)
unfolding transfer
transfer-Keeps f t a r i = search (keeps_rules, credit_user-Keeps, debit_user-Keeps) depth 9

lock_for_offline_token-Keeps :
    (u : ℕ) (a : ℤ) (i : ReferenceId) → Runs Keeps (lock_for_offline_token u a i)
unfolding lock_for_offline_token
lock_for_offline_token-Keeps u a i = record {
  at = λ s h. elim (Bool-cases (leb_ℤ a (pos 0))) [
    | inl bad ↦ rw bad h
    | inr good ↦ rw good (elim (Bool-cases (ltb_ℤ (available u s) a)) [
      | inl short ↦ rw short (ensure-IsSolvent u s h)
      | inr enough ↦ rw enough (
          write-IsSolvent u _
            (new_entry u debit a offline_token_issue (some i) (available u s -ℤ a)) s
            (owner-balance_of u s) (ground (arith, -ℤ_parts (available u s) a))
            (ground (arith, +ℤ_parts (locked u s) a, h u)) h)
    ])
  ];
}

unlock_and_refund-Keeps : (u : ℕ) (a : ℤ) (i : ReferenceId) → Runs Keeps (unlock_and_refund u a i)
unfolding unlock_and_refund
unlock_and_refund-Keeps u a i = record {
  at = λ s h.
      let m = min_ℤ a (locked u s) in
      elim (Bool-cases (leb_ℤ a (pos 0))) [
        | inl none_left ↦ rw none_left (ensure-IsSolvent u s h)
        | inr good ↦ rw good (
            write-IsSolvent u _
              (new_entry u credit m offline_token_refund (some i) (available u s +ℤ m)) s
              (owner-balance_of u s) (ground (arith, +ℤ_parts (available u s) m, h u))
              (ground (arith, -ℤ_parts (locked u s) m, h u)) h)
      ];
}

-- A call that does not ask for an overdraft.
abbrev pub IsCovered : Call → Type 0
IsCovered (debits u a r i overdraft) = overdraft ≡ false
IsCovered _ = Unit

perform-IsSolvent : (c : Call) (s : Books) → IsCovered c → IsSolvent s → IsSolvent (perform c s)
unfolding perform get_balance verify_balance_integrity
perform-IsSolvent (credits u a r i) s k h = (credit_user-Keeps u a r i).at s h
perform-IsSolvent (debits u a r i o) s k h = rw k ((debit_user-Keeps u a r i).at s h)
perform-IsSolvent (transfers f t a r i) s k h = (transfer-Keeps f t a r i).at s h
perform-IsSolvent (locks u a i) s k h = (lock_for_offline_token-Keeps u a i).at s h
perform-IsSolvent (refunds u a i) s k h = (unlock_and_refund-Keeps u a i).at s h
perform-IsSolvent (reads u) s k h = ensure-IsSolvent u s h
perform-IsSolvent (verifies u) s k h = ensure-IsSolvent u s h

perform_all-Keeps :
    (cs : List Call) (s : Books) → All IsCovered cs → IsSolvent s → IsSolvent (perform_all cs s)
unfolding perform_all
perform_all-Keeps [] s k h = h
perform_all-Keeps (c ∷ cs) s k h =
    perform_all-Keeps cs (perform c s) k.1 (perform-IsSolvent c s k.0 h)

-- From empty tables, no sequence of calls without an overdraft makes the available or the locked
-- balance of any user negative.
pub perform_all-IsSolvent :
    (cs : List Call) → All IsCovered cs → IsSolvent (perform_all cs empty_books)
perform_all-IsSolvent cs k = perform_all-Keeps cs empty_books k (λ u. omega arith)
