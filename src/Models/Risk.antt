-- ===== src/Models/Risk.antt =====
-- app/models/fraud_signal.py, app/models/blacklisted_device.py, app/models/device_activity_log.py
-- and app/models/audit.py
use offimesh.Prelude.{ℕ, ℤ, Option}
use offimesh.Models.Party.{Verdict}

pub data SignalType : Type 0 where
  play_integrity_fail play_integrity_no_token device_rooted emulator_detected : SignalType
  hardware_key_missing impossible_travel rapid_device_switch unusual_spend_pattern : SignalType
  multiple_failed_pins off_hours_activity double_spend_attempt token_replay : SignalType
  serial_mismatch invalid_signature amount_manipulation face_mismatch : SignalType
  id_verification_failed multiple_id_attempts low_trust_score : SignalType
  -- any other string
  other_signal : ℕ → SignalType

pub record FraudSignal : Type 0 where
  pub user_id : ℕ
  pub device_fingerprint_hash : ℕ
  pub signal_type : SignalType
  pub score_contribution : ℕ
  pub created_at : ℕ

pub record BlacklistedDevice : Type 0 where
  pub device_fingerprint_hash : ℕ

abbrev pub blacklist_key : BlacklistedDevice → ℕ
blacklist_key b = b.device_fingerprint_hash

pub data Activity : Type 0 where
  token_provisioning : Activity
  other_activity : ℕ → Activity

pub record DeviceActivityLog : Type 0 where
  pub device_id : ℕ
  pub user_id : ℕ
  pub ip_address : ℕ
  pub action : Activity
  pub play_integrity_verdict : Option Verdict
  pub device_trust_score : ℤ
  pub created_at : ℕ

pub data AuditAction : Type 0 where
  token_provisioned token_spend_locked token_expired_audit token_manually_expired : AuditAction
  token_revoked_audit : AuditAction
  batch_synced transaction_created : AuditAction
  settlement_completed_audit settlement_failed_audit : AuditAction
  fraud_signal device_auto_blacklisted : AuditAction
  webhook_received wallet_funded device_blacklisted : AuditAction
  user_verified login_initiated login_completed pin_was_set : AuditAction
  identity_initiated identity_face_verified trust_score_recalculated : AuditAction

pub record AuditLog : Type 0 where
  pub action : AuditAction
  pub resource_id : ℕ
