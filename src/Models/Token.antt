-- ===== src/Models/Token.antt =====
-- app/models/offline_token.py
use offimesh.Prelude.{ℕ, ℤ, ◌-ℤ◌, max_ℤ, pos, leb_ℤ, Bool, Option}
use offimesh.Exceptions.{Action}
use offimesh.Models.Clock.{DateTime, naive, is_at_or_after}

pub data TokenStatus : Type 0 where
  active spend_locked exhausted expired revoked : TokenStatus

-- `token_id` is the public id, a NOT NULL column without a default; `none` is a value that was
-- never assigned.
pub record OfflineToken : Type 0 where
  pub id : ℕ
  pub token_id : Option ℕ
  pub serial : ℕ
  pub user_id : ℕ
  pub device_id : ℕ
  pub device_fingerprint_hash : ℕ
  pub amount_kobo : ℤ
  pub amount_used_kobo : ℤ
  pub nonce : ℕ
  pub server_signature : ℕ
  pub status : TokenStatus
  pub customer_spend_cutoff : DateTime
  pub expires_at : DateTime

abbrev pub token_key : OfflineToken → ℕ
token_key t = t.id

-- What is left on a token, as the services compute it, and the property that stops at 0.
abbrev pub unused : OfflineToken → ℤ
unused t = t.amount_kobo -ℤ t.amount_used_kobo

pub remaining_kobo : OfflineToken → ℤ
remaining_kobo t = max_ℤ (pos 0) (unused t)

pub is_exhausted : OfflineToken → Bool
is_exhausted t = leb_ℤ t.amount_kobo t.amount_used_kobo

-- Both properties take the naive `datetime.utcnow()`.
unfoldable pub is_expired : {S : Type 0} → OfflineToken → ℕ → Action S Bool
is_expired t now = is_at_or_after (naive now) t.expires_at

pub is_spend_locked : {S : Type 0} → OfflineToken → ℕ → Action S Bool
is_spend_locked t now = is_at_or_after (naive now) t.customer_spend_cutoff
