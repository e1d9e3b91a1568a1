-- ===== src/Tokens/Spending.antt =====
-- `record_spend`: its outcomes, and the invariant.
use offimesh.Prelude.{
  ℕ, ℤ, pos, ◌+ℤ◌, ◌≤ℤ◌, ◌≡◌, ◌<◌, ◌≤◌, find-replace_self, +ℤ-zero, refl, ap, ◌∙◌, sym, subst, inl,
  inr, ◌⊎◌, some, none, List, [], ◌∷◌, arith, find, All-find, key-find, find-replace_self,
  Option-cases, int_laws, pos_part, neg_part, +ℤ_parts, -ℤ_parts,
}
use offimesh.Exceptions.{
  ok, err, Result, session, validation, token_past_cutoff_time, token_expired,
}
use offimesh.Models.{Db, OfflineToken, token_key, unused, active, spend_locked, aware}
use offimesh.Tokens.{serial_key, validate_token_for_spend, save_token, spent, record_spend}
use offimesh.Tokens.Held.{IsSound, part}
use offimesh.Tokens.Backing.{IsBacked, save-IsBacked, find_own}

record_spend_missing :
    (k : ℕ) (a : ℤ) (now : ℕ) (db : Db)
    → find token_key k db.tokens ≡ none
    → (record_spend k a now db).1 ≡ db
unfolding record_spend
record_spend_missing k a now db e = ground arith

-- What a call has taken from the token, by how it ended.
abbrev pub charged : Result OfflineToken → ℤ → ℤ
charged (ok _) a = a
charged (err _) a = pos 0

-- The three ways in which a call on a token of the table can end.
record_spend_cases :
    (k : ℕ) (a : ℤ) (now : ℕ) (db : Db) (t : OfflineToken)
    → find token_key k db.tokens ≡ some t
    → let (r, db') = record_spend k a now db in
      ((charged r a ≡ pos 0) × (db' ≡ db))
      ⊎ ((charged r a ≡ pos 0)
          × (t.status ≡ active)
          × (db' ≡ save_token (record t { status = spend_locked }) db))
      ⊎ ((charged r a ≡ a)
          × (t.status ≡ active)
          × (t.amount_used_kobo +ℤ a ≤ℤ t.amount_kobo)
          × (db' ≡ save_token (spent t (t.amount_used_kobo +ℤ a)) db))
unfolding record_spend
record_spend_cases k a now db t e = ground arith

lock-part :
    (u : ℕ) (t : OfflineToken)
    → t.status ≡ active
    → part u (record t { status = spend_locked }) ≤ℤ part u t
lock-part u t h = ground arith

spent-part :
    (u : ℕ) (t : OfflineToken) (a : ℤ)
    → t.status ≡ active
    → pos 0 ≤ℤ a
    → part u (spent t (t.amount_used_kobo +ℤ a)) ≤ℤ part u t
spent-part u t a h p = ground (
  arith,
  +ℤ_parts t.amount_used_kobo a,
  -ℤ_parts t.amount_kobo t.amount_used_kobo,
  -ℤ_parts t.amount_kobo (t.amount_used_kobo +ℤ a),
)

-- A spend of an amount that is not negative keeps the invariant, whether it goes through, is
-- refused or finds the token past its cutoff.
pub record_spend-IsBacked :
    (k : ℕ) (a : ℤ) (now : ℕ) (db : Db)
    → pos 0 ≤ℤ a
    → IsBacked db
    → IsBacked (record_spend k a now db).1
record_spend-IsBacked k a now db p b = elim (Option-cases (find token_key k db.tokens)) [
  | inl missing ↦ subst IsBacked (sym (record_spend_missing k a now db missing)) b
  | inr (t, e) ↦
      let e' = find_own k t db e in
      let sound = All-find token_key IsSound k db.tokens t b.0 e in
      elim (record_spend_cases k a now db t e) [
        | inl (_, same) ↦ subst IsBacked (sym same) b
        | inr (inl (_, act, x)) ↦ subst IsBacked (sym x) (
            save-IsBacked (record t { status = spend_locked }) db t e' sound
              (λ u. lock-part u t act) b)
        | inr (inr (_, act, fits, x)) ↦ subst IsBacked (sym x) (
            save-IsBacked (spent t (t.amount_used_kobo +ℤ a)) db t e'
              (omega (int_laws, sound), fits) (λ u. spent-part u t a act p) b)
      ]
]

saved_row :
    (k : ℕ) (new : OfflineToken) (db : Db) (t : OfflineToken)
    → find token_key k db.tokens ≡ some t
    → token_key new ≡ token_key t
    → find token_key k (save_token new db).tokens ≡ some new
saved_row k new db t e same =
    let key : token_key new ≡ k = same ∙ key-find token_key k db.tokens t e in
    subst (λ i. find token_key i (save_token new db).tokens ≡ some new) key
      (find-replace_self token_key new db.tokens t (ap (λ i. find token_key i db.tokens) key ∙ e))

-- How the row of a token stands after a call: the same amount, more used by what the call took, and
-- within the amount if it was before.
abbrev RowAfter : ℕ → ℤ → OfflineToken → Db → Type 0
RowAfter k taken t db' =
    (t' : OfflineToken) × (find token_key k db'.tokens ≡ some t')
    × (t'.amount_kobo ≡ t.amount_kobo)
    × (t'.amount_used_kobo ≡ t.amount_used_kobo +ℤ taken)
    × (t.amount_used_kobo ≤ℤ t.amount_kobo → t'.amount_used_kobo ≤ℤ t'.amount_kobo)

record_spend_row :
    (k : ℕ) (a : ℤ) (now : ℕ) (db : Db) (t : OfflineToken)
    → find token_key k db.tokens ≡ some t
    → let (r, db') = record_spend k a now db in RowAfter k (charged r a) t db'
record_spend_row k a now db t e = elim (record_spend_cases k a now db t e) [
  | inl (none_taken, same) ↦
      (t, ap (λ d. find token_key k d.tokens) same ∙ e, refl, nothing none_taken, λ h. h)
  | inr (inl (none_taken, act, x)) ↦
      let new = record t { status = spend_locked } in
      (
        new,
        ap (λ d. find token_key k d.tokens) x ∙ saved_row k new db t e refl,
        refl,
        nothing none_taken,
        λ h. h,
      )
  | inr (inr (taken, act, fits, x)) ↦
      let new = spent t (t.amount_used_kobo +ℤ a) in
      (
        new,
        ap (λ d. find token_key k d.tokens) x ∙ saved_row k new db t e refl,
        refl,
        ap (λ y. t.amount_used_kobo +ℤ y) (sym taken),
        λ h. fits,
      )
]
  where
    nothing :
        charged (record_spend k a now db).0 a ≡ pos 0
        → t.amount_used_kobo ≡ t.amount_used_kobo +ℤ charged (record_spend k a now db).0 a
    nothing z = sym (+ℤ-zero t.amount_used_kobo) ∙ ap (λ y. t.amount_used_kobo +ℤ y) (sym z)

-- Several calls on one token, and what they took together.
unfoldable pub spend_all : ℕ → List (ℤ × ℕ) → Db → ℤ × Db
spend_all k [] db = (pos 0, db)
spend_all k ((a, now) ∷ calls) db =
    let (r, db') = record_spend k a now db in
    let (rest, db'') = spend_all k calls db' in (charged r a +ℤ rest, db'')

-- However often a token is spent, at whatever times and in whatever amounts, the calls that go
-- through take together no more than was left on it.
pub spend_all-le-unused :
    (k : ℕ) (calls : List (ℤ × ℕ)) (db : Db) (t : OfflineToken)
    → find token_key k db.tokens ≡ some t
    → t.amount_used_kobo ≤ℤ t.amount_kobo
    → (spend_all k calls db).0 ≤ℤ unused t
unfolding spend_all
spend_all-le-unused k [] db t e h = omega int_laws
spend_all-le-unused k ((a, now) ∷ calls) db t e h =
    let (t', e', am, us, fit) = record_spend_row k a now db t e in
    let ih = spend_all-le-unused k calls (record_spend k a now db).1 t' e' (fit h) in
    omega (int_laws, ih, ap pos_part am, ap neg_part am, ap pos_part us, ap neg_part us)

-- Once the cutoff is past, a spend of an active token raises, and its session is rolled back: the
-- lock that the code writes before it raises is lost, with everything else.
record_spend_late :
    (k : ℕ) (a : ℤ) (now cutoff : ℕ) (db : Db) (t : OfflineToken)
    → find token_key k db.tokens ≡ some t
    → t.status ≡ active
    → t.customer_spend_cutoff ≡ aware cutoff
    → cutoff < now
    → (record_spend k a now db ≡ (
      err (validation token_past_cutoff_time),
      save_token (record t { status = spend_locked }) db,
    ))
      × (session (record_spend k a now) db ≡ (err (validation token_past_cutoff_time), db))
unfolding record_spend
record_spend_late k a now cutoff db t e act c late = (ground arith, ground arith)

-- A token that has expired and is not past its cutoff: `validate_token_for_spend` refuses it, and
-- `record_spend` takes a fitting amount from it.
spend_after_expiry :
    (k : ℕ) (a : ℤ) (now cutoff expiry : ℕ) (db : Db) (t : OfflineToken)
    → find token_key k db.tokens ≡ some t
    → find serial_key t.serial db.tokens ≡ some t
    → t.status ≡ active
    → t.customer_spend_cutoff ≡ aware cutoff
    → t.expires_at ≡ aware expiry
    → expiry < now
    → now ≤ cutoff
    → t.amount_used_kobo +ℤ a ≤ℤ t.amount_kobo
    → ((validate_token_for_spend t.serial a now db).0 ≡ err token_expired)
      × ((record_spend k a now db).0 ≡ ok (spent t (t.amount_used_kobo +ℤ a)))
unfolding record_spend validate_token_for_spend
spend_after_expiry k a now cutoff expiry db t e es act c x late early fits =
    (ground arith, ground arith)
