-- ===== src/Models/Party.antt =====
-- app/models/user.py and app/models/device.py, the columns that the modelled services use (a GPS
-- coordinate is a float that is only stored, and left out).
use offimesh.Prelude.{ℕ, ℤ, Option, none, some, Bool, true, false}

pub data UserStatus : Type 0 where
  pending_verification user_active other_user_status : UserStatus

pub record User : Type 0 where
  pub id : ℕ
  pub name : Option ℕ
  pub nin_verified : Bool
  pub bvn_verified : Bool
  pub face_verified : Bool
  pub balance_kobo : ℤ
  pub phone_hash : ℕ
  pub phone_salt : ℕ
  pub email : Option ℕ
  pub pin_hash : Option ℕ
  pub role : ℕ
  pub user_status : UserStatus

pub data TrustLevel : Type 0 where
  standard elevated revoked_device other_level : TrustLevel

-- The verdict strings of `_verify_play_integrity` and `_calculate_trust_score`.
pub data Verdict : Type 0 where
  no_token meets_device_integrity meets_basic_integrity : Verdict

pub record Device : Type 0 where
  pub id : ℕ
  pub user_id : ℕ
  pub device_fingerprint : ℕ
  pub trust_level : TrustLevel
  pub registered_at : Option ℕ
  pub device_trust_score : ℤ
  pub last_ip_address : ℕ
  pub play_integrity_last_verdict : Option Verdict
  pub play_integrity_last_check : Option ℕ
  pub is_hardware_backed_key : Bool
  pub play_integrity_fail_count : ℕ

abbrev pub user_key : User → ℕ
user_key u = u.id

-- A missing registration time, which the column forbids, counts as the oldest.
abbrev pub registration : Device → ℕ
registration d = elim d.registered_at [ some n ↦ n | none ↦ 0 ]

abbrev pub is_not_revoked : TrustLevel → Bool
is_not_revoked revoked_device = false
is_not_revoked _ = true

abbrev pub device_key : Device → ℕ
device_key d = d.id
