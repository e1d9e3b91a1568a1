-- ===== src/Fraud.antt =====
-- app/services/fraud_service.py. `now` is the clock reading of the call, in seconds.
pub mod Signals
pub mod Checkpoints
mod Tests
use offimesh.Prelude.{
  ℕ, ◌+◌, ◌*◌, ltb, leb, ltb_ℤ, ℤ, pos, Bool, true, false, not, ◌&&◌, ◌||◌, Option, none, some,
  List, [], ◌∷◌, ◌++◌, ◌==◌, if◌then◌else◌, find, is_some, length, filter_by,
}
use offimesh.Exceptions.{Action, ok, pure, gets, modify, ◌>>=◌, ◌>>◌}
use offimesh.Models.{
  Db, Verdict, no_token, audit, logged, fraud_signal, device_auto_blacklisted, FraudSignal,
  BlacklistedDevice, blacklist_key, SignalType, play_integrity_fail, play_integrity_no_token,
  device_rooted, emulator_detected, hardware_key_missing, impossible_travel, rapid_device_switch,
  unusual_spend_pattern, multiple_failed_pins, off_hours_activity, double_spend_attempt,
  token_replay, serial_mismatch, invalid_signature, amount_manipulation, face_mismatch,
  id_verification_failed, multiple_id_attempts, low_trust_score, other_signal, hours,
}

-- `SIGNAL_SCORES.get(signal_type, 10)`
unfoldable pub signal_score : SignalType → ℕ
signal_score play_integrity_fail = 30
signal_score play_integrity_no_token = 25
signal_score device_rooted = 35
signal_score emulator_detected = 40
signal_score hardware_key_missing = 15
signal_score impossible_travel = 50
signal_score rapid_device_switch = 20
signal_score unusual_spend_pattern = 15
signal_score multiple_failed_pins = 25
signal_score off_hours_activity = 10
signal_score double_spend_attempt = 45
signal_score token_replay = 50
signal_score serial_mismatch = 35
signal_score invalid_signature = 40
signal_score amount_manipulation = 45
signal_score face_mismatch = 30
signal_score id_verification_failed = 25
signal_score multiple_id_attempts = 20
signal_score low_trust_score = 10
signal_score (other_signal _) = 10

abbrev pub block_threshold : ℕ
block_threshold = 60

abbrev pub review_threshold : ℕ
review_threshold = 60

abbrev pub auto_blacklist_threshold : ℕ
auto_blacklist_threshold = 3

abbrev pub week : ℕ
week = hours (7 * 24)

-- The signals of a device in the last seven days: `created_at >= now - timedelta(days=7)`.
abbrev pub is_recent : ℕ → ℕ → FraudSignal → Bool
is_recent hash now s = s.device_fingerprint_hash == hash && leb now (s.created_at + week)

unfoldable pub recent_signals : ℕ → ℕ → List FraudSignal → List FraudSignal
recent_signals hash now = filter_by (is_recent hash now)

unfoldable pub sum_scores : List FraudSignal → ℕ
sum_scores [] = 0
sum_scores (s ∷ ss) = s.score_contribution + sum_scores ss

unfoldable pub get_historical_device_score : ℕ → ℕ → Action Db ℕ
get_historical_device_score hash now = gets (λ db. sum_scores (recent_signals hash now db.signals))

-- `_record_signal`, which audits signals of 30 points or more.
unfoldable pub record_signal : ℕ → ℕ → SignalType → ℕ → Db → Db
record_signal user_id hash signal_type now db =
    let score = signal_score signal_type in
    let added = record db {
      signals =
          (record {
            user_id = user_id;
            device_fingerprint_hash = hash;
            signal_type = signal_type;
            score_contribution = score;
            created_at = now;
          })
          ∷ db.signals;
    } in
    if leb 30 score then logged fraud_signal hash added else added

unfoldable pub record_signals : ℕ → ℕ → List SignalType → ℕ → Db → Db
record_signals user_id hash [] now db = db
record_signals user_id hash (t ∷ ts) now db =
    record_signals user_id hash ts now (record_signal user_id hash t now db)

abbrev pub is_double_spend : FraudSignal → Bool
is_double_spend s = elim s.signal_type [ double_spend_attempt ↦ true | _ ↦ false ]

abbrev pub is_integrity_fail : FraudSignal → Bool
is_integrity_fail s = elim s.signal_type [
  | play_integrity_fail ↦ true
  | play_integrity_no_token ↦ true
  | _ ↦ false
]

unfoldable pub count_by : (FraudSignal → Bool) → List FraudSignal → ℕ
count_by p ss = length (filter_by p ss)

abbrev pub is_listed : ℕ → Db → Bool
is_listed hash db = is_some (find blacklist_key hash db.blacklist)

-- The three triggers, over the recent signals of the device.
unfoldable pub should_blacklist : List FraudSignal → Bool
should_blacklist ss =
    leb auto_blacklist_threshold (length ss)
    || leb 2 (count_by is_double_spend ss)
    || leb 3 (count_by is_integrity_fail ss)

unfoldable pub check_auto_blacklist : ℕ → ℕ → Action Db Bool
check_auto_blacklist hash now db =
    if is_listed hash db
    then (ok false, db)
    else if should_blacklist (recent_signals hash now db.signals)
    then (
      ok true,
      logged device_auto_blacklisted hash
          (record db { blacklist = (record { device_fingerprint_hash = hash }) ∷ db.blacklist }),
    )
    else (ok false, db)

pub record Limits : Type 0 where
  pub max_token_kobo : ℤ
  pub ttl_hours : ℕ

-- The dict that `DeviceTrustService.evaluate_trust` returns. It has no key `verdict`, which
-- checkpoint 1 reads.
pub record TrustResult : Type 0 where
  pub trusted : Bool
  pub trust_score : ℤ
  pub limits : Limits
  pub play_integrity_passed : Bool
  pub hardware_backed : Bool
  pub verdict : Option Verdict

pub record FraudResult : Type 0 where
  pub fraud_score : ℕ
  pub blocked : Bool
  pub signals_detected : List SignalType
  pub historical_score : ℕ

abbrev pub is_no_token : Option Verdict → Bool
is_no_token (some no_token) = true
is_no_token _ = false

-- The signals of checkpoint 1, in the order of detection.
unfoldable pub checkpoint_1_signals : TrustResult → List SignalType
checkpoint_1_signals r =
    (if r.play_integrity_passed
      then []
      else (if is_no_token r.verdict then play_integrity_no_token else play_integrity_fail) ∷ [])
    ++ ((if r.hardware_backed then [] else hardware_key_missing ∷ [])
        ++ (if ltb_ℤ r.trust_score (pos 40) then low_trust_score ∷ [] else []))

unfoldable pub sum_signal_scores : List SignalType → ℕ
sum_signal_scores [] = 0
sum_signal_scores (t ∷ ts) = signal_score t + sum_signal_scores ts

-- Both checkpoints after the detection: score, history, recording and the blacklist check.
unfoldable pub assess : ℕ → ℕ → List SignalType → ℕ → ℕ → Action Db FraudResult
assess user_id hash detected threshold now = do
  historical ← get_historical_device_score hash now
  modify (record_signals user_id hash detected now)
  check_auto_blacklist hash now
  let total = sum_signal_scores detected + historical
  pure (record {
    fraud_score = total;
    blocked = leb threshold total;
    signals_detected = detected;
    historical_score = historical;
  })

unfoldable pub evaluate_checkpoint_1 : ℕ → ℕ → TrustResult → ℕ → Action Db FraudResult
evaluate_checkpoint_1 user_id hash trust now =
    assess user_id hash (checkpoint_1_signals trust) block_threshold now

-- The flags of `settlement_data` that checkpoint 2 reads.
pub record SettlementData : Type 0 where
  pub is_replay : Bool
  pub has_serial_mismatch : Bool
  pub signature_invalid : Bool
  pub has_amount_manipulation : Bool
  pub has_double_spend_attempt : Bool

abbrev pub when : Bool → SignalType → List SignalType → List SignalType
when true t ts = t ∷ ts
when false t ts = ts

unfoldable pub checkpoint_2_signals : SettlementData → List SignalType
checkpoint_2_signals d = when d.is_replay token_replay (
    when d.has_serial_mismatch serial_mismatch (
      when d.signature_invalid invalid_signature (
        when d.has_amount_manipulation amount_manipulation
          (when d.has_double_spend_attempt double_spend_attempt []))))

-- Checkpoint 2; `blocked` stands for `flagged_for_review`.
unfoldable pub evaluate_checkpoint_2 : ℕ → ℕ → SettlementData → ℕ → Action Db FraudResult
evaluate_checkpoint_2 user_id hash flags now =
    assess user_id hash (checkpoint_2_signals flags) review_threshold now
