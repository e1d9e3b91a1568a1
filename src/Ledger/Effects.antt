-- ===== src/Ledger/Effects.antt =====
-- What each operation does to the balances, by the branch that it takes.
use offimesh.Prelude.{
  ℕ, ℤ, pos, ◌+ℤ◌, ◌-ℤ◌, ◌≤ℤ◌, ◌≡◌, refl, ap, ◌∙◌, false, arith, ◌==◌, if◌then◌else◌, +ℤ-zero,
  -ℤ-zero, Option,
}
use offimesh.Exceptions.{ok, err, validation, insufficient_funds, amount_must_be_positive}
use offimesh.Ledger.{
  Books, ReferenceType, ReferenceId, write, ensure, balance_of, credit_user, debit_user, transfer,
  credit, debit, new_entry,
}
use offimesh.Ledger.Rows.{
  available, locked, available-ensure, locked-ensure, available-write, locked-write,
  owner-balance_of, balance_of-ensure, entries-ensure,
}

-- Every operation refuses an amount that is not positive and leaves the tables alone.
pub credit_user_bad :
    (u : ℕ) (a : ℤ) (r : ReferenceType) (i : Option ReferenceId) (s : Books)
    → a ≤ℤ pos 0
    → credit_user u a r i s ≡ (err (validation amount_must_be_positive), s)
unfolding credit_user
credit_user_bad u a r i s h = ground arith

pub credit_user_ok :
    (u : ℕ) (a : ℤ) (r : ReferenceType) (i : Option ReferenceId) (s : Books)
    → pos 1 ≤ℤ a
    → let b = record (balance_of u s) { available_balance_kobo = available u s +ℤ a } in
      credit_user u a r i s
      ≡ (ok b, write b (new_entry u credit a r i (available u s +ℤ a)) (ensure u s))
unfolding credit_user
credit_user_ok u a r i s h = ground arith

pub debit_user_ok :
    (u : ℕ) (a : ℤ) (r : ReferenceType) (i : Option ReferenceId) (s : Books)
    → pos 1 ≤ℤ a
    → a ≤ℤ available u s
    → let b = record (balance_of u s) { available_balance_kobo = available u s -ℤ a } in
      debit_user u a r i false s
      ≡ (ok b, write b (new_entry u debit a r i (available u s -ℤ a)) (ensure u s))
unfolding debit_user
debit_user_ok u a r i s h k = ground arith

pub debit_user_short :
    (u : ℕ) (a : ℤ) (r : ReferenceType) (i : Option ReferenceId) (s : Books)
    → pos 1 ≤ℤ a
    → ¬ (a ≤ℤ available u s)
    → debit_user u a r i false s ≡ (err (insufficient_funds a (available u s)), ensure u s)
unfolding debit_user
debit_user_short u a r i s h k = ground arith

-- The tables after a transfer that goes through.
abbrev pub debited : ℕ → ℤ → ReferenceType → Option ReferenceId → Books → Books
debited u a r i s =
    write (record (balance_of u s) { available_balance_kobo = available u s -ℤ a })
      (new_entry u debit a r i (available u s -ℤ a)) (ensure u s)

abbrev pub credited : ℕ → ℤ → ReferenceType → Option ReferenceId → Books → Books
credited u a r i s =
    write (record (balance_of u s) { available_balance_kobo = available u s +ℤ a })
      (new_entry u credit a r i (available u s +ℤ a)) (ensure u s)

pub transfer_ok :
    (f t : ℕ) (a : ℤ) (r : ReferenceType) (i : Option ReferenceId) (s : Books)
    → pos 1 ≤ℤ a
    → a ≤ℤ available f s
    → let q = credited t a r i (debited f a r i s) in
      transfer f t a r i s ≡ (ok (balance_of f q, balance_of t (ensure f q)), ensure t (ensure f q))
unfolding transfer
transfer_ok f t a r i s h k =
    ground (arith, debit_user_ok f a r i s h k, credit_user_ok t a r i (debited f a r i s) h)

-- `a` at `u`, nothing elsewhere.
abbrev pub at : ℕ → ℤ → ℕ → ℤ
at u a j = if u == j then a else pos 0

available-debited :
    (j u : ℕ) (a : ℤ) (r : ReferenceType) (i : Option ReferenceId) (s : Books)
    → available j (debited u a r i s) ≡ available j s -ℤ at u a j
available-debited j u a r i s = ground (
  arith,
  available-write j u (record (balance_of u s) { available_balance_kobo = available u s -ℤ a })
      (new_entry u debit a r i (available u s -ℤ a)) s (owner-balance_of u s),
  -ℤ-zero (available j s),
)

available-credited :
    (j u : ℕ) (a : ℤ) (r : ReferenceType) (i : Option ReferenceId) (s : Books)
    → available j (credited u a r i s) ≡ available j s +ℤ at u a j
available-credited j u a r i s = ground (
  arith,
  available-write j u (record (balance_of u s) { available_balance_kobo = available u s +ℤ a })
      (new_entry u credit a r i (available u s +ℤ a)) s (owner-balance_of u s),
  +ℤ-zero (available j s),
)

locked-debited :
    (j u : ℕ) (a : ℤ) (r : ReferenceType) (i : Option ReferenceId) (s : Books)
    → locked j (debited u a r i s) ≡ locked j s
locked-debited j u a r i s = ground (
  arith,
  locked-write j u (record (balance_of u s) { available_balance_kobo = available u s -ℤ a })
      (new_entry u debit a r i (available u s -ℤ a)) s (owner-balance_of u s),
)

locked-credited :
    (j u : ℕ) (a : ℤ) (r : ReferenceType) (i : Option ReferenceId) (s : Books)
    → locked j (credited u a r i s) ≡ locked j s
locked-credited j u a r i s = ground (
  arith,
  locked-write j u (record (balance_of u s) { available_balance_kobo = available u s +ℤ a })
      (new_entry u credit a r i (available u s +ℤ a)) s (owner-balance_of u s),
)

-- A transfer of a positive amount that the sender has goes through: it answers with the balances
-- after it, the sender loses the amount and the receiver gains it (a transfer to oneself changes
-- nothing), no other available balance changes, and no locked balance does.
transfer-moves :
    (f t : ℕ) (a : ℤ) (r : ReferenceType) (i : Option ReferenceId) (s : Books)
    → pos 1 ≤ℤ a
    → a ≤ℤ available f s
    → let s' = (transfer f t a r i s).1 in
      ((transfer f t a r i s).0 ≡ ok (balance_of f s', balance_of t s'))
      × ((j : ℕ) → available j s' ≡ available j s -ℤ at f a j +ℤ at t a j)
      × ((j : ℕ) → locked j s' ≡ locked j s)
transfer-moves f t a r i s h k =
    let p = debited f a r i s in
    let q = credited t a r i p in
    rw (transfer_ok f t a r i s h k) (
      cc (
        balance_of-ensure f t (ensure f q),
        balance_of-ensure f f q,
        balance_of-ensure t t (ensure f q),
      ),
      (λ j.
          available-ensure j t (ensure f q)
          ∙ available-ensure j f q
          ∙ available-credited j t a r i p
          ∙ ap (λ x. x +ℤ at t a j) (available-debited j f a r i s)),
      (λ j.
          locked-ensure j t (ensure f q)
          ∙ locked-ensure j f q
          ∙ locked-credited j t a r i p
          ∙ locked-debited j f a r i s),
    )

transfer_err :
    (f t : ℕ) (a : ℤ) (r : ReferenceType) (i : Option ReferenceId) (s : Books)
    → pos 1 ≤ℤ a
    → ¬ (a ≤ℤ available f s)
    → transfer f t a r i s ≡ (err (insufficient_funds a (available f s)), ensure f s)
unfolding transfer
transfer_err f t a r i s h k = ground (arith, debit_user_short f a r i s h k)

-- A transfer of a positive amount that the sender does not have raises, names both amounts, moves
-- no money and writes no entry.
pub transfer_short :
    (f t : ℕ) (a : ℤ) (r : ReferenceType) (i : Option ReferenceId) (s : Books)
    → pos 1 ≤ℤ a
    → ¬ (a ≤ℤ available f s)
    → let (x, s') = transfer f t a r i s in
      (x ≡ err (insufficient_funds a (available f s)))
      × (s'.entries ≡ s.entries)
      × ((j : ℕ) → balance_of j s' ≡ balance_of j s)
transfer_short f t a r i s h k =
    rw (transfer_err f t a r i s h k) (refl, entries-ensure f s, λ j. balance_of-ensure j f s)
