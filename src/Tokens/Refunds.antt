-- ===== src/Tokens/Refunds.antt =====
-- What closing a token does to the books.
use offimesh.Prelude.{
  ℕ, pos, ◌+ℤ◌, ◌-ℤ◌, ◌≤ℤ◌, ltb_ℤ, min_ℤ, ◌≡◌, ap, inl, inr, arith, if◌then◌else◌, Bool-cases,
  +ℤ-zero, -ℤ-zero, eq_of_parts,
}
use offimesh.Exceptions.{ok}
use offimesh.Ledger.{Books, id, unlock_and_refund}
use offimesh.Ledger.Rows.{available, locked}
use offimesh.Ledger.Effects.{at}
use offimesh.Ledger.Locking.{unlock_and_refund-moves}
use offimesh.Models.{Db, OfflineToken, unused}
use offimesh.Tokens.{refund_unused}

-- The books after the refund of what is left on a token.
abbrev pub refunded_books : OfflineToken → Books → Books
refunded_books t s =
    if ltb_ℤ (pos 0) (unused t) then (unlock_and_refund t.user_id (unused t) (id t.id) s).1 else s

pub refund_unused_lem :
    (t : OfflineToken) (db : Db)
    → refund_unused t db ≡ (ok tt, record db { books = refunded_books t db.books })
unfolding refund_unused
refund_unused_lem t db = elim (Bool-cases (ltb_ℤ (pos 0) (unused t))) [
  | inl left ↦ ground (arith, unlock_and_refund-moves t.user_id (unused t) (id t.id) db.books)
  | inr none_left ↦ rw none_left
]

-- If what is left is not negative and the user has it locked, all of it moves back.
pub refunded_books-moves :
    (t : OfflineToken) (s : Books)
    → pos 0 ≤ℤ unused t
    → unused t ≤ℤ locked t.user_id s
    → (j : ℕ)
    → (available j (refunded_books t s) ≡ available j s +ℤ at t.user_id (unused t) j)
      × (locked j (refunded_books t s) ≡ locked j s -ℤ at t.user_id (unused t) j)
refunded_books-moves t s h k j = elim (Bool-cases (ltb_ℤ (pos 0) (unused t))) [
  | inl left ↦
      let (_, av, lo) = unlock_and_refund-moves t.user_id (unused t) (id t.id) s (ground arith) in
      let m : min_ℤ (unused t) (locked t.user_id s) ≡ unused t = ground arith in
      rw left (cc (av j, ap (λ x. at t.user_id x j) m), cc (lo j, ap (λ x. at t.user_id x j) m))
  | inr none_left ↦
      let z : at t.user_id (unused t) j ≡ pos 0 = ground (arith, eq_of_parts (unused t) (pos 0)) in
      rw none_left (cc (z, +ℤ-zero (available j s)), cc (z, -ℤ-zero (locked j s)))
]
