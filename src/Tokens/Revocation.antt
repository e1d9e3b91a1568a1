-- ===== src/Tokens/Revocation.antt =====
-- `revoke_token` and the manual refund task, and what a user gets back.
use offimesh.Prelude.{
  ℕ, ◌+ℤ◌, ◌-ℤ◌, ◌≤ℤ◌, ◌≡◌, ◌≢◌, refl, ap, ◌∙◌, sym, inl, inr, true, false, some, none, arith, find,
  replace, key-find, find-replace_self, Bool-cases, Option-cases, int_laws, pos_part, neg_part,
}
use offimesh.Exceptions.{ok, err, not_found, value_error}
use offimesh.Ledger.Rows.{available, locked}
use offimesh.Ledger.Effects.{at}
use offimesh.Models.{
  Db, logged, token_revoked_audit, token_manually_expired, OfflineToken, token_key, unused, revoked,
  expired,
}
use offimesh.Tokens.{is_closed, save_token, revoke_token}
use offimesh.Tokens.Refunds.{refunded_books, refunded_books-moves, refund_unused_lem}
use offimesh.Tokens.Workers.{refund_specific_token, already_expired, refunded, is_expired_status}
use offimesh.Tokens.Backing.{IsBacked, find_own, covers, close-IsBacked}

-- A call on an open token refunds, marks the row and writes the audit log.
pub revoke_token_open :
    (k : ℕ) (db : Db) (t : OfflineToken)
    → find token_key k db.tokens ≡ some t
    → is_closed t.status ≡ false
    → revoke_token k db ≡ (
      ok tt,
      logged token_revoked_audit k (
          save_token
            (record t { status = revoked })
            (record db { books = refunded_books t db.books })),
    )
unfolding revoke_token
revoke_token_open k db t e live = ground (arith, refund_unused_lem t db)

revoke_token_shut :
    (k : ℕ) (db : Db) (t : OfflineToken)
    → find token_key k db.tokens ≡ some t
    → is_closed t.status ≡ true
    → revoke_token k db ≡ (ok tt, db)
unfolding revoke_token
revoke_token_shut k db t e shut = ground arith

revoke_token_missing :
    (k : ℕ) (db : Db) → find token_key k db.tokens ≡ none → revoke_token k db ≡ (err not_found, db)
unfolding revoke_token
revoke_token_missing k db e = ground arith

-- Revoking a token keeps the invariant.
pub revoke_token-IsBacked : (k : ℕ) (db : Db) → IsBacked db → IsBacked (revoke_token k db).1
revoke_token-IsBacked k db b = elim (Option-cases (find token_key k db.tokens)) [
  | inl missing ↦ rw (revoke_token_missing k db missing) b
  | inr (t, e) ↦ elim (Bool-cases (is_closed t.status)) [
    | inl shut ↦ rw (revoke_token_shut k db t e shut) b
    | inr live ↦ rw (revoke_token_open k db t e live) (close-IsBacked revoked k t db e refl live b)
  ]
]

-- Revoking an open token gives the user all that is left of it, takes exactly that off the locked
-- balance, and touches no other user's balances; the token ends revoked and its spend stays.
revoke_token-refunds :
    (k : ℕ) (db : Db) (t : OfflineToken)
    → IsBacked db
    → find token_key k db.tokens ≡ some t
    → is_closed t.status ≡ false
    → let db' = (revoke_token k db).1 in
      (find token_key k db'.tokens ≡ some (record t { status = revoked }))
      × ((j : ℕ)
          → (available j db'.books ≡ available j db.books +ℤ at t.user_id (unused t) j)
            × (locked j db'.books ≡ locked j db.books -ℤ at t.user_id (unused t) j))
revoke_token-refunds k db t b e live =
    rw (revoke_token_open k db t e live)
      (saved, refunded_books-moves t db.books (covers k t db e live b).0 (covers k t db e live b).1)
  where
    saved :
        find token_key k (replace token_key (record t { status = revoked }) db.tokens)
        ≡ some (record t { status = revoked })
    saved =
        ap (λ i. find token_key i (replace token_key (record t { status = revoked }) db.tokens))
          (sym (key-find token_key k db.tokens t e))
        ∙ find-replace_self token_key (record t { status = revoked }) db.tokens t
            (find_own k t db e)

-- The manual refund of a token that has not expired; a revoked token is no exception.
refund_specific_token_due :
    (k : ℕ) (db : Db) (t : OfflineToken)
    → find token_key k db.tokens ≡ some t
    → is_expired_status t.status ≡ false
    → refund_specific_token k db ≡ (
      ok (refunded (unused t)),
      logged token_manually_expired k (
          save_token
            (record t { status = expired })
            (record db { books = refunded_books t db.books })),
    )
unfolding refund_specific_token
refund_specific_token_due k db t e live = ground (arith, refund_unused_lem t db)

refund_specific_token_done :
    (k : ℕ) (db : Db) (t : OfflineToken)
    → find token_key k db.tokens ≡ some t
    → is_expired_status t.status ≡ true
    → refund_specific_token k db ≡ (ok already_expired, db)
unfolding refund_specific_token
refund_specific_token_done k db t e shut = ground arith

refund_specific_token_missing :
    (k : ℕ) (db : Db)
    → find token_key k db.tokens ≡ none
    → refund_specific_token k db ≡ (err value_error, db)
unfolding refund_specific_token
refund_specific_token_missing k db e = ground arith

-- The manual refund keeps the invariant if its token is not a revoked one.
pub refund_specific_token-IsBacked :
    (k : ℕ) (db : Db)
    → ((t : OfflineToken) → find token_key k db.tokens ≡ some t → t.status ≢ revoked)
    → IsBacked db
    → IsBacked (refund_specific_token k db).1
refund_specific_token-IsBacked k db open_only b = elim (Option-cases (find token_key k db.tokens)) [
  | inl missing ↦ rw (refund_specific_token_missing k db missing) b
  | inr (t, e) ↦ elim (Bool-cases (is_expired_status t.status)) [
    | inl shut ↦ rw (refund_specific_token_done k db t e shut) b
    | inr live ↦
        let not_revoked = open_only t e in
        rw (refund_specific_token_due k db t e live)
          (close-IsBacked expired k t db e refl (ground arith) b)
  ]
]

-- The manual refund task pays a revoked token a second time: on backed tables, for a token that is
-- neither revoked nor expired, if its user has at least twice the rest of the token locked, revoking
-- it and then running the task answers that the rest was refunded, and credits the rest twice.
pub revoke-refund_twice :
    (k : ℕ) (db : Db) (t : OfflineToken)
    → IsBacked db
    → find token_key k db.tokens ≡ some t
    → is_closed t.status ≡ false
    → unused t +ℤ unused t ≤ℤ locked t.user_id db.books
    → let after_revoke = (revoke_token k db).1 in
      let (reply, db') = refund_specific_token k after_revoke in
      (reply ≡ ok (refunded (unused t)))
      × (available t.user_id db'.books ≡ available t.user_id db.books +ℤ unused t +ℤ unused t)
revoke-refund_twice k db t b e live twice =
    let db1 = (revoke_token k db).1 in
    let (e1, m) = revoke_token-refunds k db t b e live in
    let (a1, l1) = m t.user_id in
    let here : at t.user_id (unused t) t.user_id ≡ unused t = ground arith in
    let r = record t { status = revoked } in
    let again =
      refunded_books-moves r db1.books (covers k t db e live b).0
        (omega (int_laws, ap pos_part l1, ap neg_part l1, ap pos_part here, ap neg_part here))
        t.user_id in
    rw (refund_specific_token_due k db1 r e1 refl) (refl, cc (again.0, a1, here))
