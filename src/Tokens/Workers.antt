-- ===== src/Tokens/Workers.antt =====
-- app/workers/token_cutoff_worker.py and app/workers/token_expiry_worker.py, and `expire_tokens`
-- of app/repositories/token_repository.py. A loop over the rows that a query selects, in which
-- each round changes its own row, is a walk over the table that passes by the other rows. Nothing
-- in a round raises, so its `except` is never entered.
use offimesh.Prelude.{
  ℕ, ℤ, pos, ◌+ℤ◌, ltb, ltb_ℤ, Bool, true, false, ◌&&◌, find, List, [], ◌∷◌, if◌then◌else◌, ◌+◌,
}
use offimesh.Exceptions.{Action, pure, or_raise, modify, gets, ◌>>=◌, ◌>>◌, value_error, ok}
use offimesh.Ledger.{Books, id, unlock_and_refund}
use offimesh.Models.{
  Db, audit, AuditLog, token_spend_locked, token_expired_audit, token_manually_expired,
  OfflineToken, spend_locked, expired, unused, instant, TokenStatus, token_key,
}
use offimesh.Tokens.{is_active, is_spendable_status, save_token, refund_unused}

-- The row of an audit log entry for a token.
abbrev log_of : OfflineToken → AuditLog
log_of t = record { action = token_spend_locked; resource_id = t.id }

-- `customer_spend_cutoff < now` and `status == "active"`
abbrev pub is_past_cutoff : ℕ → OfflineToken → Bool
is_past_cutoff now t = ltb (instant t.customer_spend_cutoff) now && is_active t.status

-- `expires_at < now` and `status in ("active", "spend_locked")`
abbrev pub is_overdue : ℕ → OfflineToken → Bool
is_overdue now t = ltb (instant t.expires_at) now && is_spendable_status t.status

-- The rows, the number processed and the audit rows.
unfoldable pub lock_rows :
    ℕ → List OfflineToken → List AuditLog → List OfflineToken × ℕ × List AuditLog
lock_rows now [] audits = ([], 0, audits)
lock_rows now (t ∷ ts) audits =
    let (rows, processed, logs) =
      lock_rows now ts (if is_past_cutoff now t then log_of t ∷ audits else audits) in
    if is_past_cutoff now t
    then (record t { status = spend_locked } ∷ rows, processed + 1, logs)
    else (t ∷ rows, processed, logs)

unfoldable pub apply_spend_cutoffs : ℕ → Action Db ℕ
unfolding lock_rows
apply_spend_cutoffs now db =
    let (rows, processed, logs) = lock_rows now db.tokens db.audits in
    (ok processed, record db { tokens = rows; audits = logs })

-- One round of `expire_tokens` on the books and the total refunded.
abbrev pub refund_row : OfflineToken → Books × ℤ → Books × ℤ
refund_row t (books, total) =
    if ltb_ℤ (pos 0) (unused t)
    then ((unlock_and_refund t.user_id (unused t) (id t.id) books).1, total +ℤ unused t)
    else (books, total)

abbrev expiry_log : OfflineToken → AuditLog
expiry_log t = record { action = token_expired_audit; resource_id = t.id }

pub record Sweep : Type 0 where
  pub rows : List OfflineToken
  pub books : Books
  pub refunded_total : ℤ
  pub processed : ℕ
  pub logs : List AuditLog

unfoldable pub expire_rows : ℕ → List OfflineToken → Books → ℤ → List AuditLog → Sweep
expire_rows now [] books total audits = record {
  rows = [];
  books = books;
  refunded_total = total;
  processed = 0;
  logs = audits;
}
expire_rows now (t ∷ ts) books total audits = elim (is_overdue now t) [
  | true ↦
      let (books', total') = refund_row t (books, total) in
      let rest = expire_rows now ts books' total' (expiry_log t ∷ audits) in
      record rest {
        rows = record t { status = expired } ∷ rest.rows;
        processed = rest.processed + 1;
      }
  | false ↦ let rest = expire_rows now ts books total audits in record rest { rows = t ∷ rest.rows }
]

unfoldable pub expire_tokens : ℕ → Action Db (ℕ × ℤ)
unfolding expire_rows
expire_tokens now db =
    let r = expire_rows now db.tokens db.books (pos 0) db.audits in
    (
      ok (r.processed, r.refunded_total),
      record db { tokens = r.rows; books = r.books; audits = r.logs },
    )

abbrev pub is_expired_status : TokenStatus → Bool
is_expired_status expired = true
is_expired_status _ = false

pub data RefundReply : Type 0 where
  already_expired : RefundReply
  refunded : ℤ → RefundReply

-- The body of the task; a `ValueError` for an unknown token.
unfoldable pub refund_specific_token : ℕ → Action Db RefundReply
refund_specific_token token_id = do
  found ← gets (λ db. find token_key token_id db.tokens)
  token ← or_raise found value_error
  if is_expired_status token.status then pure already_expired else do
    refund_unused token
    modify (save_token (record token { status = expired }))
    audit token_manually_expired token_id
    pure (refunded (unused token))

-- `TokenRepository.expire_tokens`, run by the task of that name in
-- app/workers/reconciliation_worker.py: it marks active tokens, and refunds nothing.
mark_rows : ℕ → List OfflineToken → List OfflineToken × ℕ
mark_rows now [] = ([], 0)
mark_rows now (t ∷ ts) =
    let (rows, count) = mark_rows now ts in
    if ltb (instant t.expires_at) now && is_active t.status
    then (record t { status = expired } ∷ rows, count + 1)
    else (t ∷ rows, count)

unfoldable pub mark_expired_tokens : ℕ → Action Db ℕ
unfolding mark_rows
mark_expired_tokens now db =
    let (rows, count) = mark_rows now db.tokens in (ok count, record db { tokens = rows })
