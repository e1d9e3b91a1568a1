-- ===== src/Tokens.antt =====
-- app/services/token_service.py but for `provision_token` (Provisioning.antt). `now` is the clock
-- reading of the call, in seconds.
pub mod Workers
pub mod Refunds
pub mod Held
pub mod Backing
pub mod Spending
pub mod Revocation
pub mod Sweeps
pub mod Calls
mod Tests
use offimesh.Prelude.{
  ℕ, ℤ, pos, ◌+ℤ◌, ◌-ℤ◌, leb_ℤ, ltb_ℤ, Bool, true, false, not, ◌&&◌, Option, none, some, List, [],
  ◌∷◌, ◌==◌, if◌then◌else◌, find, replace, filter_by,
}
use offimesh.Exceptions.{
  Action, Error, pure, raise, raise_if, modify, gets, or_raise, ◌>>=◌, ◌>>◌, validation, not_found,
  token_expired, token_exhausted, token_past_cutoff, token_past_cutoff_time, token_is_exhausted,
  token_is_expired, token_is_revoked, token_has_been_revoked, insufficient_token_balance,
}
use offimesh.Ledger.{id, unlock_and_refund}
use offimesh.Models.{
  Db, on_books, audit, token_revoked_audit, OfflineToken, TokenStatus, active, spend_locked,
  exhausted, expired, revoked, token_key, unused, DateTime, aware, is_after,
}

abbrev pub save_token : OfflineToken → Db → Db
save_token t db = record db { tokens = replace token_key t db.tokens }

abbrev pub serial_key : OfflineToken → ℕ
serial_key t = t.serial

-- `scalar_one_or_none` of a select by the primary key, and the check that follows it.
abbrev pub get_token : ℕ → Action Db OfflineToken
get_token token_id db = or_raise (find token_key token_id db.tokens) not_found db

abbrev pub is_active : TokenStatus → Bool
is_active active = true
is_active _ = false

abbrev pub is_spendable_status : TokenStatus → Bool
is_spendable_status active = true
is_spendable_status spend_locked = true
is_spendable_status _ = false

-- `get_active_tokens`, in the order of the table.
pub get_active_tokens : ℕ → Action Db (List OfflineToken)
get_active_tokens user_id =
    gets (λ db. filter_by (λ t. t.user_id == user_id && is_spendable_status t.status) db.tokens)

pub get_token_by_serial : ℕ → Action Db (Option OfflineToken)
get_token_by_serial serial = gets (λ db. find serial_key serial db.tokens)

-- The errors of `record_spend` for a token that is not active.
abbrev pub require_active : TokenStatus → Action Db (Unit {0})
require_active active = pure tt
require_active spend_locked = raise (validation token_past_cutoff)
require_active exhausted = raise (validation token_is_exhausted)
require_active expired = raise (validation token_is_expired)
require_active revoked = raise (validation token_is_revoked)

-- The row after a spend has been checked against the limit.
abbrev pub spent : OfflineToken → ℤ → OfflineToken
spent token new_used = record token {
  amount_used_kobo = new_used;
  status = if leb_ℤ token.amount_kobo new_used then exhausted else token.status;
}

spend_before_cutoff : OfflineToken → ℤ → Action Db OfflineToken
spend_before_cutoff token amount_kobo = do
  let new_used = token.amount_used_kobo +ℤ amount_kobo
  raise_if (ltb_ℤ token.amount_kobo new_used) (validation insufficient_token_balance)
  modify (save_token (spent token new_used))
  pure (spent token new_used)

unfoldable pub record_spend : ℕ → ℤ → ℕ → Action Db OfflineToken
unfolding spend_before_cutoff
record_spend token_id amount_kobo now = do
  token ← get_token token_id
  require_active token.status
  past ← is_after (aware now) token.customer_spend_cutoff
  if past
      then (modify (save_token (record token { status = spend_locked }))
          >> raise (validation token_past_cutoff_time))
      else spend_before_cutoff token amount_kobo

-- `if unused > 0: await unlock_and_refund(...)`
unfoldable pub refund_unused : OfflineToken → Action Db (Unit {0})
refund_unused token =
    if ltb_ℤ (pos 0) (unused token)
    then (on_books (unlock_and_refund token.user_id (unused token) (id token.id)) >> pure tt)
    else pure tt

abbrev pub is_closed : TokenStatus → Bool
is_closed revoked = true
is_closed expired = true
is_closed _ = false

unfoldable pub revoke_token : ℕ → Action Db (Unit {0})
revoke_token token_id = do
  token ← get_token token_id
  if is_closed token.status then pure tt else do
    refund_unused token
    modify (save_token (record token { status = revoked }))
    audit token_revoked_audit token_id

-- The status errors of `validate_token_for_spend`.
abbrev pub require_alive : TokenStatus → Action Db (Unit {0})
require_alive active = pure tt
require_alive spend_locked = pure tt
require_alive revoked = raise (validation token_has_been_revoked)
require_alive expired = raise token_expired
require_alive exhausted = raise token_exhausted

unfoldable pub validate_token_for_spend : ℕ → ℤ → ℕ → Action Db OfflineToken
validate_token_for_spend serial amount_kobo now = do
  found ← gets (λ db. find serial_key serial db.tokens)
  token ← or_raise found not_found
  require_alive token.status
  dead ← is_after (aware now) token.expires_at
  raise_if dead token_expired
  past ← is_after (aware now) token.customer_spend_cutoff
  raise_if past (validation token_past_cutoff_time)
  raise_if (ltb_ℤ (unused token) amount_kobo) (validation insufficient_token_balance)
  pure token

pub record TokenStatusView : Type 0 where
  pub status : TokenStatus
  pub original_amount_kobo : ℤ
  pub used_amount_kobo : ℤ
  pub remaining : ℤ
  pub can_spend : Bool
  pub is_spend_locked_now : Bool
  pub is_expired_now : Bool

-- `now <= cutoff` is the negation of `now > cutoff`, and raises with it.
unfoldable pub get_token_status : ℕ → ℕ → Action Db TokenStatusView
get_token_status token_id now = do
  token ← get_token token_id
  past ← is_after (aware now) token.customer_spend_cutoff
  dead ← is_after (aware now) token.expires_at
  pure (record {
    status = token.status;
    original_amount_kobo = token.amount_kobo;
    used_amount_kobo = token.amount_used_kobo;
    remaining = unused token;
    can_spend = is_active token.status && not past && ltb_ℤ (pos 0) (unused token);
    is_spend_locked_now = past;
    is_expired_now = dead;
  })
