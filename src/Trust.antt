-- ===== src/Trust.antt =====
-- app/services/device_trust_service.py but for `check_impossible_travel` and `blacklist_device`,
-- which nothing calls. `now` is the clock reading of the call, in seconds.
pub mod Scores
pub mod Verdicts
pub mod Recalculation
mod Tests
use offimesh.Prelude.{
  ℕ, suc, ◌+◌, ◌*◌, ℤ, pos, negsuc, ◌+ℤ◌, ltb_ℤ, leb_ℤ, min_ℤ, max_ℤ, ltb, leb, Bool, true, false,
  not, ◌&&◌, ◌||◌, Option, none, some, List, ◌∷◌, ◌==◌, if◌then◌else◌, replace,
}
use offimesh.Exceptions.{Action, ok, pure, gets, modify, ◌>>=◌, ◌>>◌}
use offimesh.Models.{
  Db, Activity, Device, device_key, TrustLevel, standard, elevated, Verdict, no_token,
  meets_device_integrity, meets_basic_integrity,
}
use offimesh.Fraud.{Limits, TrustResult, is_listed}

-- The entries of `DEVICE_LIMITS`.
abbrev pub hardware_pass : Limits
hardware_pass = record { max_token_kobo = pos 2000000; ttl_hours = 72 }

abbrev pub software_pass : Limits
software_pass = record { max_token_kobo = pos 200000; ttl_hours = 24 }

abbrev pub blocked_limits : Limits
blocked_limits = record { max_token_kobo = pos 0; ttl_hours = 0 }

-- The hash of the fingerprint is computed by the caller, who has the fingerprint.
pub record DeviceTrustPayload : Type 0 where
  pub device_fingerprint_hash : ℕ
  pub play_integrity_token : Option ℕ
  pub is_hardware_backed_key : Bool

pub record Integrity : Type 0 where
  pub passed : Bool
  pub verdict : Verdict

-- `not token` holds of `None` and of the empty string.
abbrev pub has_token : Option ℕ → Bool
has_token none = false
has_token (some token) = not (token == 0)

unfoldable pub verify_play_integrity : Option ℕ → Integrity
verify_play_integrity token =
    if has_token token
    then record { passed = true; verdict = meets_device_integrity }
    else record { passed = false; verdict = no_token }

abbrev pub integrity_points : Integrity → ℤ
integrity_points r =
    if r.passed
    then elim r.verdict [
      | meets_device_integrity ↦ pos 40
      | meets_basic_integrity ↦ pos 25
      | no_token ↦ pos 0
    ]
    else negsuc 29

abbrev pub is_established : TrustLevel → Bool
is_established standard = true
is_established elevated = true
is_established _ = false

abbrev pub days : ℕ → ℕ
days n = n * 86400

-- `(now - registered_at).days > n` is `now - registered_at >= (n + 1) days`.
abbrev pub is_older_than : ℕ → ℕ → ℕ → Bool
is_older_than n registered_at now = leb (registered_at + days (suc n)) now

abbrev pub age_points : Option ℕ → ℕ → ℤ
age_points none now = pos 0
age_points (some registered_at) now =
    if is_older_than 30 registered_at now
    then pos 10
    else if is_older_than 7 registered_at now
    then pos 5
    else pos 0

unfoldable pub calculate_trust_score : Device → Integrity → DeviceTrustPayload → ℕ → ℤ
calculate_trust_score device integrity payload now =
    let keyed = if payload.is_hardware_backed_key then pos 25 else pos 0 in
    let known = if is_established device.trust_level then pos 15 else pos 0 in
    max_ℤ (pos 0) (
      min_ℤ (pos 100)
        (integrity_points integrity +ℤ keyed +ℤ known +ℤ age_points device.registered_at now))

unfoldable pub get_limits : Bool → Bool → ℤ → Limits
get_limits play_integrity_passed hardware_backed trust_score =
    if ltb_ℤ trust_score (pos 40) || not play_integrity_passed
    then blocked_limits
    else if hardware_backed && play_integrity_passed
    then hardware_pass
    else if play_integrity_passed
    then software_pass
    else blocked_limits

-- The device row after an evaluation, but for its position, which is not in the model.
unfoldable pub evaluated : Device → DeviceTrustPayload → ℕ → Integrity → ℤ → ℕ → Device
evaluated device payload ip_address integrity trust_score now = record device {
  device_trust_score = trust_score;
  last_ip_address = ip_address;
  play_integrity_last_verdict = some integrity.verdict;
  play_integrity_last_check = some now;
  is_hardware_backed_key = payload.is_hardware_backed_key;
  play_integrity_fail_count = if integrity.passed then 0 else suc device.play_integrity_fail_count;
}

-- `_log_activity` and the update of the device row.
unfoldable pub record_evaluation :
    Device → DeviceTrustPayload → ℕ → Activity → Integrity → ℤ → ℕ → Db → Db
record_evaluation device payload ip_address action integrity trust_score now db = record db {
  activities =
      (record {
        device_id = device.id;
        user_id = device.user_id;
        ip_address = ip_address;
        action = action;
        play_integrity_verdict = some integrity.verdict;
        device_trust_score = trust_score;
        created_at = now;
      })
      ∷ db.activities;
  devices =
      replace device_key (evaluated device payload ip_address integrity trust_score now) db.devices;
}

-- The dict for a blacklisted device lacks the last two keys too; a missing key reads as falsy.
abbrev pub untrusted : TrustResult
untrusted = record {
  trusted = false;
  trust_score = pos 0;
  limits = blocked_limits;
  play_integrity_passed = false;
  hardware_backed = false;
  verdict = none;
}

unfoldable pub evaluate_trust :
    Device → DeviceTrustPayload → ℕ → Activity → ℕ → Action Db TrustResult
evaluate_trust device payload ip_address action now = do
  listed ← gets (is_listed payload.device_fingerprint_hash)
  if listed then pure untrusted else do
    let integrity = verify_play_integrity payload.play_integrity_token
    let trust_score = calculate_trust_score device integrity payload now
    modify (record_evaluation device payload ip_address action integrity trust_score now)
    let limits = get_limits integrity.passed payload.is_hardware_backed_key trust_score
    pure (record {
      trusted = leb_ℤ (pos 40) trust_score && ltb_ℤ (pos 0) limits.max_token_kobo;
      trust_score = trust_score;
      limits = limits;
      play_integrity_passed = integrity.passed;
      hardware_backed = payload.is_hardware_backed_key;
      verdict = none;
    })
