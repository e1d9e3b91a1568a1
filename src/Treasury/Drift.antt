-- ===== src/Treasury/Drift.antt =====
-- What the ledger's own calls do to the total that a snapshot compares.
use offimesh.Prelude.{
  ℕ, ℤ, pos, ◌+ℤ◌, ◌-ℤ◌, leb_ℤ, ltb_ℤ, min_ℤ, ◌≡◌, refl, ap, ◌∙◌, sym, subst, Bool, not, ◌&&◌,
  Option, some, List, [], ◌∷◌, ◌==◌, if◌then◌else◌, find, replace, int_laws, arith, +ℤ_assoc,
  +ℤ-zero, inl, inr, Bool-cases, Option-cases,
}
use offimesh.Exceptions.{is_ok}
use offimesh.Ledger.{
  Books, LedgerBalance, LedgerEntry, ReferenceType, ReferenceId, owner, balance_of, ensure, write,
  credit_user, debit_user, transfer, lock_for_offline_token, unlock_and_refund, new_entry, credit,
  debit, offline_token_issue, offline_token_refund,
}
use offimesh.Ledger.Rows.{available, locked, find-ensure, owner-balance_of}
use offimesh.Ledger.Effects.{credited, debited, transfer_ok, debit_user_short}
use offimesh.Ledger.Locking.{refund_ok, locked_row, refunded_row}
use offimesh.Treasury.{sum_of, internal_total}

abbrev held : LedgerBalance → ℤ
held b = b.available_balance_kobo +ℤ b.locked_in_offline_tokens_kobo

pub total-ensure : (u : ℕ) (s : Books) → internal_total (ensure u s) ≡ internal_total s
unfolding ensure sum_of
total-ensure u s = elim (Option-cases (find owner u s.balances)) [
  | inl missing ↦ rw (missing, ensure) (omega int_laws)
  | inr (b, e) ↦ rw (e, ensure) refl
]

swapped : (a b c d e : ℤ) → a +ℤ b ≡ c +ℤ d → e +ℤ a +ℤ b ≡ e +ℤ c +ℤ d
swapped a b c d e h = +ℤ_assoc e a b ∙ ap (λ x. e +ℤ x) h ∙ sym (+ℤ_assoc e c d)

front : (a b c : ℤ) → a +ℤ b +ℤ c ≡ c +ℤ b +ℤ a
front a b c = omega int_laws

-- A column's sum when a row is replaced.
sum_of-replace :
    (column : LedgerBalance → ℤ) (b old : LedgerBalance) (rows : List LedgerBalance)
    → find owner (owner b) rows ≡ some old
    → sum_of column (replace owner b rows) +ℤ column old ≡ sum_of column rows +ℤ column b
unfolding sum_of
sum_of-replace column b old [] e = absurd (ground arith)
sum_of-replace column b old (x ∷ rows) e = elim (Bool-cases (owner x == owner b)) [
  | inl hit ↦
      let same : x ≡ old = ground arith in
      rw hit (rw same (front (column b) (sum_of column rows) (column old)))
  | inr miss ↦
      let rest : find owner (owner b) rows ≡ some old = ground arith in
      rw miss (
        swapped (sum_of column (replace owner b rows)) (column old) (sum_of column rows) (column b)
          (column x) (sum_of-replace column b old rows rest))
]

-- The change of the total when a row is replaced.
replaced-total :
    (a l a' l' oa ol na nl : ℤ)
    → a' +ℤ oa ≡ a +ℤ na
    → l' +ℤ ol ≡ l +ℤ nl
    → a' +ℤ l' +ℤ (oa +ℤ ol) ≡ a +ℤ l +ℤ (na +ℤ nl)
replaced-total a l a' l' oa ol na nl h k =
    mix a' l' oa ol ∙ ap (λ x. x +ℤ (l' +ℤ ol)) h ∙ ap (λ x. a +ℤ na +ℤ x) k ∙ sym (mix a l na nl)
  where
    mix : (a b c d : ℤ) → a +ℤ b +ℤ (c +ℤ d) ≡ a +ℤ c +ℤ (b +ℤ d)
    mix a b c d = omega int_laws

-- A write of a row of its user changes the total by what the row gains.
total-write :
    (u : ℕ) (b : LedgerBalance) (e : LedgerEntry) (s : Books)
    → owner b ≡ u
    → internal_total (write b e (ensure u s)) +ℤ held (balance_of u s) ≡ internal_total s +ℤ held b
total-write u b e s h =
    let rows = (ensure u s).balances in
    let old = balance_of u s in
    let found : find owner (owner b) rows ≡ some old = rw h (find-ensure u s) in
    replaced-total _ _ _ _ _ _ _ _ (sum_of-replace (λ r. r.available_balance_kobo) b old rows found)
      (sum_of-replace (λ r. r.locked_in_offline_tokens_kobo) b old rows found)
    ∙ ap (λ t. t +ℤ held b) (total-ensure u s)

cancel : (a b h d : ℤ) → a +ℤ h ≡ b +ℤ (h +ℤ d) → a ≡ b +ℤ d
cancel a b h d e = drop a h ∙ ap (λ x. x -ℤ h) e ∙ swap b h d
  where
    drop : (a h : ℤ) → a ≡ a +ℤ h -ℤ h
    drop a h = omega int_laws

    swap : (b h d : ℤ) → b +ℤ (h +ℤ d) -ℤ h ≡ b +ℤ d
    swap b h d = omega int_laws

-- The total after a step that brings in `d`.
abbrev pub Moves : ℤ → Books → Books → Type 0
Moves d s t = internal_total t ≡ internal_total s +ℤ d

write-Moves :
    (u : ℕ) (b : LedgerBalance) (e : LedgerEntry) (d : ℤ) (s : Books)
    → owner b ≡ u
    → held b ≡ held (balance_of u s) +ℤ d
    → Moves d s (write b e (ensure u s))
write-Moves u b e d s h k =
    cancel _ (internal_total s) (held (balance_of u s)) d
      (total-write u b e s h ∙ ap (λ x. internal_total s +ℤ x) k)

pub stays-Moves : (s t : Books) → internal_total t ≡ internal_total s → Moves (pos 0) s t
stays-Moves s t h = h ∙ sym (+ℤ-zero (internal_total s))

pub Moves-trans : (c d : ℤ) (r s t : Books) → Moves c r s → Moves d s t → Moves (c +ℤ d) r t
Moves-trans c d r s t p q = q ∙ ap (λ x. x +ℤ d) p ∙ +ℤ_assoc (internal_total r) c d

credited-Moves :
    (u : ℕ) (a : ℤ) (r : ReferenceType) (i : Option ReferenceId) (s : Books)
    → Moves a s (credited u a r i s)
credited-Moves u a r i s =
    write-Moves u _ (new_entry u credit a r i (available u s +ℤ a)) a s (owner-balance_of u s)
      (inner (available u s) (locked u s) a)
  where
    inner : (v l a : ℤ) → v +ℤ a +ℤ l ≡ v +ℤ l +ℤ a
    inner v l a = omega int_laws

debited-Moves :
    (u : ℕ) (a : ℤ) (r : ReferenceType) (i : Option ReferenceId) (s : Books)
    → Moves (pos 0 -ℤ a) s (debited u a r i s)
debited-Moves u a r i s =
    write-Moves u _ (new_entry u debit a r i (available u s -ℤ a)) (pos 0 -ℤ a) s
      (owner-balance_of u s) (inner (available u s) (locked u s) a)
  where
    inner : (v l a : ℤ) → v -ℤ a +ℤ l ≡ v +ℤ l +ℤ (pos 0 -ℤ a)
    inner v l a = omega int_laws

locked-Moves : (v l a : ℤ) → v -ℤ a +ℤ (l +ℤ a) ≡ v +ℤ l +ℤ pos 0
locked-Moves v l a = omega int_laws

refunded-Moves : (v l a : ℤ) → v +ℤ a +ℤ (l -ℤ a) ≡ v +ℤ l +ℤ pos 0
refunded-Moves v l a = omega int_laws

pub credit-Moves :
    (u : ℕ) (a : ℤ) (r : ReferenceType) (i : Option ReferenceId) (s : Books)
    → Moves (if is_ok (credit_user u a r i s).0 then a else pos 0) s (credit_user u a r i s).1
unfolding credit_user
credit-Moves u a r i s = elim (Bool-cases (leb_ℤ a (pos 0))) [
  | inl bad ↦ rw bad (stays-Moves s s refl)
  | inr good ↦ rw good (credited-Moves u a r i s)
]

pub debit-Moves :
    (u : ℕ) (a : ℤ) (r : ReferenceType) (i : Option ReferenceId) (o : Bool) (s : Books)
    → Moves
        (if is_ok (debit_user u a r i o s).0 then pos 0 -ℤ a else pos 0)
        s
        (debit_user u a r i o s).1
unfolding debit_user
debit-Moves u a r i o s = elim (Bool-cases (leb_ℤ a (pos 0))) [
  | inl bad ↦ rw bad (stays-Moves s s refl)
  | inr good ↦ rw good (elim (Bool-cases (not o && ltb_ℤ (available u s) a)) [
    | inl short ↦ rw short (stays-Moves s (ensure u s) (total-ensure u s))
    | inr enough ↦ rw enough (debited-Moves u a r i s)
  ])
]

out_in : (a : ℤ) → pos 0 -ℤ a +ℤ a ≡ pos 0
out_in a = omega int_laws

-- The two rows that a transfer reads at its end are there already.
opened-Moves : (d : ℤ) (f t : ℕ) (s q : Books) → Moves d s q → Moves d s (ensure t (ensure f q))
opened-Moves d f t s q h = total-ensure t (ensure f q) ∙ total-ensure f q ∙ h

pub transfer-Moves :
    (f t : ℕ) (a : ℤ) (r : ReferenceType) (i : Option ReferenceId) (s : Books)
    → Moves (pos 0) s (transfer f t a r i s).1
unfolding transfer
transfer-Moves f t a r i s = elim (Bool-cases (leb_ℤ a (pos 0))) [
  | inl bad ↦ rw bad (stays-Moves s s refl)
  | inr good ↦ elim (Bool-cases (ltb_ℤ (available f s) a)) [
    | inl short ↦ rw good (
        rw (debit_user_short f a r i s (ground arith) (ground arith))
          (stays-Moves s (ensure f s) (total-ensure f s)))
    | inr enough ↦ rw (transfer_ok f t a r i s (ground arith) (ground arith)) (
        opened-Moves (pos 0) f t s (credited t a r i (debited f a r i s)) (
          subst (λ d. Moves d s (credited t a r i (debited f a r i s))) (out_in a)
            (Moves-trans (pos 0 -ℤ a) a s (debited f a r i s) (credited t a r i (debited f a r i s))
              (debited-Moves f a r i s) (credited-Moves t a r i (debited f a r i s)))))
  ]
]

pub lock-Moves :
    (u : ℕ) (a : ℤ) (i : ReferenceId) (s : Books)
    → Moves (pos 0) s (lock_for_offline_token u a i s).1
unfolding lock_for_offline_token
lock-Moves u a i s = elim (Bool-cases (leb_ℤ a (pos 0))) [
  | inl bad ↦ rw bad (stays-Moves s s refl)
  | inr good ↦ rw good (elim (Bool-cases (ltb_ℤ (available u s) a)) [
    | inl short ↦ rw short (stays-Moves s (ensure u s) (total-ensure u s))
    | inr enough ↦ rw enough (
        write-Moves u (locked_row u a s)
          (new_entry u debit a offline_token_issue (some i) (available u s -ℤ a)) (pos 0) s
          (owner-balance_of u s) (locked-Moves (available u s) (locked u s) a))
  ])
]

pub refund-Moves :
    (u : ℕ) (a : ℤ) (i : ReferenceId) (s : Books) → Moves (pos 0) s (unlock_and_refund u a i s).1
unfolding unlock_and_refund
refund-Moves u a i s = elim (Bool-cases (leb_ℤ a (pos 0))) [
  | inl bad ↦ rw bad (stays-Moves s (ensure u s) (total-ensure u s))
  | inr good ↦
      let m = min_ℤ a (locked u s) in
      rw (refund_ok u a i s (ground arith)) (
        write-Moves u (refunded_row u m s)
          (new_entry u credit m offline_token_refund (some i) (available u s +ℤ m)) (pos 0) s
          (owner-balance_of u s) (refunded-Moves (available u s) (locked u s) m))
]
