-- ===== src/Tokens/Backing.antt =====
-- The invariant that ties the tokens to the ledger, and the operations on one token.
use offimesh.Prelude.{
  ℕ, pos, ◌≤ℤ◌, ◌≡◌, ap, ◌∙◌, true, false, some, arith, find, All, All-find, All-replace, key-find,
  int_laws, pos_part, neg_part,
}
use offimesh.Ledger.Rows.{locked}
use offimesh.Ledger.Effects.{at}
use offimesh.Models.{Db, OfflineToken, token_key, unused, TokenStatus}
use offimesh.Tokens.{is_closed, save_token}
use offimesh.Tokens.Refunds.{refunded_books, refunded_books-moves}
use offimesh.Tokens.Held.{IsSound, part, held, part-le-held, held-replace}

-- Every token is sound, and what the open tokens of a user hold is locked in the ledger.
abbrev pub IsBacked : Db → Type 0
IsBacked db = All IsSound db.tokens × ((u : ℕ) → held u db.tokens ≤ℤ locked u db.books)

-- A change of a row that makes the token hold no more.
pub save-IsBacked :
    (new : OfflineToken) (db : Db) (old : OfflineToken)
    → find token_key (token_key new) db.tokens ≡ some old
    → IsSound new
    → ((u : ℕ) → part u new ≤ℤ part u old)
    → IsBacked db
    → IsBacked (save_token new db)
save-IsBacked new db old e sound less (h, k) = (
  All-replace token_key IsSound new db.tokens sound h,
  λ u.
      let s = held-replace u new db.tokens old e in
      omega (int_laws, ap pos_part s, ap neg_part s, less u, k u),
)

-- A row that a key finds is found by its own key.
pub find_own :
    (k : ℕ) (t : OfflineToken) (db : Db)
    → find token_key k db.tokens ≡ some t
    → find token_key (token_key t) db.tokens ≡ some t
find_own k t db e = ap (λ i. find token_key i db.tokens) (key-find token_key k db.tokens t e) ∙ e

-- What is left of an open token is locked for its user.
pub covers :
    (k : ℕ) (t : OfflineToken) (db : Db)
    → find token_key k db.tokens ≡ some t
    → is_closed t.status ≡ false
    → IsBacked db
    → (pos 0 ≤ℤ unused t) × (unused t ≤ℤ locked t.user_id db.books)
covers k t db e live (h, c) =
    let sound : IsSound t = All-find token_key IsSound k db.tokens t h e in
    let mine : part t.user_id t ≡ unused t = ground arith in
    (
      omega (int_laws, sound),
      omega (
        arith,
        ap pos_part mine,
        ap neg_part mine,
        part-le-held t.user_id k db.tokens t h e,
        c t.user_id,
      ),
    )

-- The refund of an open token and its change to a closed status.
pub close-IsBacked :
    (st : TokenStatus) (k : ℕ) (t : OfflineToken) (db : Db)
    → find token_key k db.tokens ≡ some t
    → is_closed st ≡ true
    → is_closed t.status ≡ false
    → IsBacked db
    → IsBacked
        (save_token (record t { status = st }) (record db { books = refunded_books t db.books }))
close-IsBacked st k t db e shut live (h, c) =
    let e' = find_own k t db e in
    let sound : IsSound t = All-find token_key IsSound k db.tokens t h e in
    let (some_left, enough) = covers k t db e live (h, c) in
    (
      All-replace token_key IsSound (record t { status = st }) db.tokens sound h,
      λ u.
          let s = held-replace u (record t { status = st }) db.tokens t e' in
          let l = (refunded_books-moves t db.books some_left enough u).1 in
          let gone : part u (record t { status = st }) ≡ pos 0 = ground arith in
          let kept : part u t ≡ at t.user_id (unused t) u = ground arith in
          omega (
            int_laws,
            ap pos_part s,
            ap neg_part s,
            ap pos_part l,
            ap neg_part l,
            ap pos_part gone,
            ap neg_part gone,
            ap pos_part kept,
            ap neg_part kept,
            c u,
          ),
    )
