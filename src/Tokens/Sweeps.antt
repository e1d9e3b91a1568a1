-- ===== src/Tokens/Sweeps.antt =====
-- The periodic workers over all tokens: what they mark and what they refund.
use offimesh.Prelude.{
  ℕ, ℤ, pos, ◌+ℤ◌, ◌-ℤ◌, ◌≤ℤ◌, ◌≡◌, refl, ap, ◌∙◌, sym, subst, inl, inr, true, false, List, [], ◌∷◌,
  arith, if◌then◌else◌, All, Bool-cases, int_laws, pos_part, neg_part, map,
}
use offimesh.Ledger.{Books}
use offimesh.Ledger.Rows.{available, locked}
use offimesh.Ledger.Effects.{at}
use offimesh.Models.{
  Db, AuditLog, token_spend_locked, token_expired_audit, OfflineToken, unused, spend_locked,
  expired,
}
use offimesh.Tokens.Refunds.{refunded_books, refunded_books-moves}
use offimesh.Tokens.Held.{IsSound, part, held, held-nonneg, part-nonneg}
use offimesh.Tokens.Backing.{IsBacked}
use offimesh.Tokens.Workers.{
  is_past_cutoff, is_overdue, lock_rows, apply_spend_cutoffs, refund_row, expire_rows,
  expire_tokens,
}

add_assoc : (a b c : ℤ) → a +ℤ b +ℤ c ≡ a +ℤ (b +ℤ c)
add_assoc a b c = omega int_laws

zero_add : (a : ℤ) → pos 0 +ℤ a ≡ a
zero_add a = omega int_laws

-- The row that the cutoff worker leaves.
abbrev pub cut_off : ℕ → OfflineToken → OfflineToken
cut_off now t = if is_past_cutoff now t then record t { status = spend_locked } else t

lock_rows-map :
    (now : ℕ) (ts : List OfflineToken) (a : List AuditLog)
    → (lock_rows now ts a).0 ≡ map (cut_off now) ts
unfolding lock_rows
lock_rows-map now [] a = refl
lock_rows-map now (t ∷ ts) a = ground (
  arith,
  lock_rows-map now ts (
      if is_past_cutoff now t
      then record { action = token_spend_locked; resource_id = t.id } ∷ a
      else a),
)

cut_off-part : (now u : ℕ) (t : OfflineToken) → part u (cut_off now t) ≡ part u t
cut_off-part now u t = ground arith

cut_off-IsSound : (now : ℕ) (t : OfflineToken) → IsSound t → IsSound (cut_off now t)
cut_off-IsSound now t h = ground arith

map-held : (now u : ℕ) (ts : List OfflineToken) → held u (map (cut_off now) ts) ≡ held u ts
unfolding held
map-held now u [] = refl
map-held now u (t ∷ ts) = cc (cut_off-part now u t, map-held now u ts)

-- What the tokens that the expiry worker selects still hold for a user.
pub due : ℕ → ℕ → List OfflineToken → ℤ
due now u [] = pos 0
due now u (t ∷ ts) = (if is_overdue now t then at t.user_id (unused t) u else pos 0) +ℤ due now u ts

refund_row-books :
    (t : OfflineToken) (books : Books) (total : ℤ)
    → (refund_row t (books, total)).0 ≡ refunded_books t books
refund_row-books t books total = ground arith

overdue-part :
    (now u : ℕ) (t : OfflineToken) → is_overdue now t ≡ true → part u t ≡ at t.user_id (unused t) u
overdue-part now u t late = ground arith

expired-part : (u : ℕ) (t : OfflineToken) → part u (record t { status = expired }) ≡ pos 0
expired-part u t = ground arith

-- `extra` is what the rows before these hold.
abbrev Covered : (ℕ → ℤ) → List OfflineToken → Books → Type 0
Covered extra ts books = (u : ℕ) → extra u +ℤ held u ts ≤ℤ locked u books

-- The refund of an overdue token, seen by every user.
refund_row-moves :
    (now : ℕ) (t : OfflineToken) (ts : List OfflineToken) (books : Books) (total : ℤ)
    (extra : ℕ → ℤ)
    → is_overdue now t ≡ true
    → ((u : ℕ) → pos 0 ≤ℤ extra u)
    → All IsSound (t ∷ ts)
    → Covered extra (t ∷ ts) books
    → (u : ℕ)
    → let books' = (refund_row t (books, total)).0 in
      (available u books' ≡ available u books +ℤ at t.user_id (unused t) u)
      × (locked u books' ≡ locked u books -ℤ at t.user_id (unused t) u)
unfolding held
refund_row-moves now t ts books total extra late p h c u =
    let o = t.user_id in
    let mine : part o t ≡ unused t = ground (arith, overdue-part now o t late) in
    subst
      (λ b.
        (available u b ≡ available u books +ℤ at o (unused t) u)
        × (locked u b ≡ locked u books -ℤ at o (unused t) u))
      (sym (refund_row-books t books total))
      (refunded_books-moves t books (omega (int_laws, h.0))
        (omega (int_laws, ap pos_part mine, ap neg_part mine, p o, c o, held-nonneg o ts h.1)) u)

expire_rows-Backed :
    (now : ℕ) (ts : List OfflineToken) (books : Books) (total : ℤ) (a : List AuditLog)
    (extra : ℕ → ℤ)
    → ((u : ℕ) → pos 0 ≤ℤ extra u)
    → All IsSound ts
    → Covered extra ts books
    → let r = expire_rows now ts books total a in
      All IsSound r.rows
      × Covered extra r.rows r.books
      × ((u : ℕ) → available u r.books ≡ available u books +ℤ due now u ts)
unfolding expire_rows held due
expire_rows-Backed now [] books total a extra p h c = (tt, c, λ u. omega int_laws)
expire_rows-Backed now (t ∷ ts) books total a extra p h c = elim (Bool-cases (is_overdue now t)) [
  | inl late ↦
      let r0 = refund_row t (books, total) in
      let moves = refund_row-moves now t ts books total extra late p h c in
      let ih =
        expire_rows-Backed now ts r0.0 r0.1
          (record { action = token_expired_audit; resource_id = t.id } ∷ a) extra p h.1
          (λ u.
            let l = (moves u).1 in
            let k = overdue-part now u t late in
            omega (int_laws, ap pos_part l, ap neg_part l, ap pos_part k, ap neg_part k, c u)) in
      rw (late, expire_rows)
        (
          (h.0, ih.0),
          (λ u. let z = expired-part u t in omega (int_laws, ap pos_part z, ap neg_part z, ih.1 u)),
          (λ u. ih.2 u ∙ ap (λ x. x +ℤ due now u ts) (moves u).0 ∙ add_assoc _ _ _),
        )
  | inr early ↦
      let ih =
        expire_rows-Backed now ts books total a (λ u. extra u +ℤ part u t)
          (λ u. omega (int_laws, p u, part-nonneg u t h.0)) h.1 (λ u. omega (int_laws, c u)) in
      rw (early, expire_rows)
        (
          (h.0, ih.0),
          (λ u. omega (int_laws, ih.1 u)),
          (λ u. ih.2 u ∙ ap (λ x. available u books +ℤ x) (sym (zero_add (due now u ts)))),
        )
]

expired_one : ℕ → OfflineToken → OfflineToken
expired_one now t = if is_overdue now t then record t { status = expired } else t

expire_rows-map :
    (now : ℕ) (ts : List OfflineToken) (books : Books) (total : ℤ) (a : List AuditLog)
    → (expire_rows now ts books total a).rows ≡ map (expired_one now) ts
unfolding expire_rows expired_one
expire_rows-map now [] books total a = refl
expire_rows-map now (t ∷ ts) books total a = elim (Bool-cases (is_overdue now t)) [
  | inl late ↦
      rw (late, expire_rows)
        (ap (◌∷◌ (record t { status = expired })) (expire_rows-map now ts _ _ _))
  | inr early ↦ rw (early, expire_rows) (ap (◌∷◌ t) (expire_rows-map now ts _ _ _))
]

none_overdue :
    (now : ℕ) (ts : List OfflineToken)
    → All (λ t. is_overdue now t ≡ false) (map (expired_one now) ts)
unfolding expired_one
none_overdue now [] = tt
none_overdue now (t ∷ ts) = (ground arith, none_overdue now ts)

-- On backed tables the expiry worker leaves no overdue token, pays every user exactly what their
-- overdue tokens still held, and leaves the tables backed.
pub expire_tokens-settles :
    (now : ℕ) (db : Db)
    → IsBacked db
    → let db' = (expire_tokens now db).1 in
      All (λ t. is_overdue now t ≡ false) db'.tokens
      × ((u : ℕ) → available u db'.books ≡ available u db.books +ℤ due now u db.tokens)
      × IsBacked db'
unfolding expire_tokens
expire_tokens-settles now db (h, c) =
    let r =
      expire_rows-Backed now db.tokens db.books (pos 0) db.audits (λ u. pos 0) (λ u. omega arith) h
        (λ u. omega (int_laws, c u)) in
    (
      subst (All (λ t. is_overdue now t ≡ false))
          (sym (expire_rows-map now db.tokens db.books (pos 0) db.audits))
          (none_overdue now db.tokens),
      r.2,
      (r.0, λ u. omega (int_laws, r.1 u)),
    )

map-IsSound :
    (now : ℕ) (ts : List OfflineToken) → All IsSound ts → All IsSound (map (cut_off now) ts)
map-IsSound now [] h = tt
map-IsSound now (t ∷ ts) h = (cut_off-IsSound now t h.0, map-IsSound now ts h.1)

-- The cutoff worker turns exactly the active tokens past their cutoff into spend-locked ones, moves
-- no money, and leaves backed tables backed.
pub apply_spend_cutoffs-marks :
    (now : ℕ) (db : Db)
    → IsBacked db
    → let db' = (apply_spend_cutoffs now db).1 in
      (db'.tokens ≡ map (cut_off now) db.tokens) × (db'.books ≡ db.books) × IsBacked db'
unfolding apply_spend_cutoffs
apply_spend_cutoffs-marks now db (h, c) =
    let e = lock_rows-map now db.tokens db.audits in
    (
      e,
      refl,
      (
        subst (All IsSound) (sym e) (map-IsSound now db.tokens h),
        λ u.
            subst (λ ts. held u ts ≤ℤ locked u db.books) (sym e)
              (subst (λ x. x ≤ℤ locked u db.books) (sym (map-held now u db.tokens)) (c u)),
      ),
    )
