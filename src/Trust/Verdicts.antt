-- ===== src/Trust/Verdicts.antt =====
-- What an evaluation answers and what it writes.
use offimesh.Prelude.{
  ℕ, suc, ℤ, ◌≡◌, Bool, true, false, none, some, replace, subst, ◌≤ℤ◌, [], ◌∷◌, ◌++◌, ltb_ℤ, ap,
  pos, refl, if◌then◌else◌, arith, Bool-cases, inl, inr,
}
use offimesh.Exceptions.{ok}
use offimesh.Models.{
  Db, Activity, hardware_key_missing, play_integrity_fail, low_trust_score, Device, device_key,
  Verdict, no_token, meets_device_integrity,
}
use offimesh.Fraud.{Limits, TrustResult, is_listed, checkpoint_1_signals}
use offimesh.Trust.{
  DeviceTrustPayload, verify_play_integrity, calculate_trust_score, hardware_pass, software_pass,
  blocked_limits, has_token, evaluate_trust, untrusted, record_evaluation, evaluated,
}
use offimesh.Trust.Scores.{passed-score, get_limits_blocked, get_limits_passed}

evaluate_trust_listed :
    (d : Device) (p : DeviceTrustPayload) (ip : ℕ) (action : Activity) (now : ℕ) (db : Db)
    → is_listed p.device_fingerprint_hash db ≡ true
    → evaluate_trust d p ip action now db ≡ (ok untrusted, db)
unfolding evaluate_trust
evaluate_trust_listed d p ip action now db e = ground arith

-- The limits of a device by trust and by key.
abbrev pub limits_of : Bool → Bool → Limits
limits_of trusted hardware_backed =
    if trusted then (if hardware_backed then hardware_pass else software_pass) else blocked_limits

-- The verdict that the mock of the integrity check gives, by the presence of a token.
abbrev pub verdict_of : DeviceTrustPayload → Verdict
verdict_of p = if has_token p.play_integrity_token then meets_device_integrity else no_token

abbrev pub score_of : Device → DeviceTrustPayload → ℕ → ℤ
score_of d p now =
    calculate_trust_score d
      (record { passed = has_token p.play_integrity_token; verdict = verdict_of p }) p now

-- The answer without the blacklist: trust is the presence of an integrity token.
abbrev pub open_answer : Device → DeviceTrustPayload → ℕ → TrustResult
open_answer d p now =
    let has = has_token p.play_integrity_token in
    record {
      trusted = has;
      trust_score = score_of d p now;
      limits = limits_of has p.is_hardware_backed_key;
      play_integrity_passed = has;
      hardware_backed = p.is_hardware_backed_key;
      verdict = none;
    }

-- The row of the device afterwards.
abbrev pub recorded_device : Device → DeviceTrustPayload → ℕ → ℕ → Device
recorded_device d p ip now = record d {
  device_trust_score = score_of d p now;
  last_ip_address = ip;
  play_integrity_last_verdict = some (verdict_of p);
  play_integrity_last_check = some now;
  is_hardware_backed_key = p.is_hardware_backed_key;
  play_integrity_fail_count =
      if has_token p.play_integrity_token then 0 else suc d.play_integrity_fail_count;
}

-- The tables afterwards: that row and one more entry of the log.
abbrev pub recorded : Device → DeviceTrustPayload → ℕ → Activity → ℕ → Db → Db
recorded d p ip action now db = record db {
  activities =
      (record {
        device_id = d.id;
        user_id = d.user_id;
        ip_address = ip;
        action = action;
        play_integrity_verdict = some (verdict_of p);
        device_trust_score = score_of d p now;
        created_at = now;
      })
      ∷ db.activities;
  devices = replace device_key (recorded_device d p ip now) db.devices;
}

verify_play_integrity_lem :
    (p : DeviceTrustPayload)
    → verify_play_integrity p.play_integrity_token
      ≡ record { passed = has_token p.play_integrity_token; verdict = verdict_of p }
unfolding verify_play_integrity
verify_play_integrity_lem p = elim (Bool-cases (has_token p.play_integrity_token)) [
  | inl h ↦ rw h refl
  | inr h ↦ rw h refl
]

enough_score :
    (d : Device) (p : DeviceTrustPayload) (now : ℕ)
    → has_token p.play_integrity_token ≡ true
    → pos 40 ≤ℤ score_of d p now
enough_score d p now h =
    subst (λ r. pos 40 ≤ℤ calculate_trust_score d r p now) (verify_play_integrity_lem p)
      (passed-score d p now h)

evaluate_trust_tokenless :
    (d : Device) (p : DeviceTrustPayload) (ip : ℕ) (action : Activity) (now : ℕ) (db : Db)
    → is_listed p.device_fingerprint_hash db ≡ false
    → has_token p.play_integrity_token ≡ false
    → evaluate_trust d p ip action now db
      ≡ (ok (open_answer d p now), recorded d p ip action now db)
unfolding evaluate_trust record_evaluation evaluated
evaluate_trust_tokenless d p ip action now db e h = ground (
  arith,
  verify_play_integrity_lem p,
  get_limits_blocked p.is_hardware_backed_key (score_of d p now),
)

pub evaluate_trust_token :
    (d : Device) (p : DeviceTrustPayload) (ip : ℕ) (action : Activity) (now : ℕ) (db : Db)
    → is_listed p.device_fingerprint_hash db ≡ false
    → has_token p.play_integrity_token ≡ true
    → evaluate_trust d p ip action now db
      ≡ (ok (open_answer d p now), recorded d p ip action now db)
unfolding evaluate_trust record_evaluation evaluated
evaluate_trust_token d p ip action now db e h =
    let enough = enough_score d p now h in
    ground (
      arith,
      verify_play_integrity_lem p,
      get_limits_passed p.is_hardware_backed_key (score_of d p now) enough,
      enough,
    )

-- An evaluation never raises. A device on the blacklist is untrusted and nothing is written;
-- any other is trusted exactly if it sends an integrity token, its limits follow from trust and the
-- kind of its key alone, whatever its score, and the answer never has a verdict; and the score, the
-- verdict, the address and the time are written to the row of the device, with the kind of its key
-- and the count of failed checks, which a token resets, and to one new entry of the log.
pub evaluate_trust-decides :
    (d : Device) (p : DeviceTrustPayload) (ip : ℕ) (action : Activity) (now : ℕ) (db : Db)
    → evaluate_trust d p ip action now db ≡ (
        if is_listed p.device_fingerprint_hash db
        then (ok untrusted, db)
        else (ok (open_answer d p now), recorded d p ip action now db))
evaluate_trust-decides d p ip action now db =
    elim (Bool-cases (is_listed p.device_fingerprint_hash db)) [
      | inl e ↦ rw e (evaluate_trust_listed d p ip action now db e)
      | inr e ↦ rw e (elim (Bool-cases (has_token p.play_integrity_token)) [
        | inl h ↦ evaluate_trust_token d p ip action now db e h
        | inr h ↦ evaluate_trust_tokenless d p ip action now db e h
      ])
    ]

pub open_answer-signals :
    (d : Device) (p : DeviceTrustPayload) (now : ℕ)
    → has_token p.play_integrity_token ≡ true
    → checkpoint_1_signals (open_answer d p now)
      ≡ (if p.is_hardware_backed_key then [] else hardware_key_missing ∷ [])
unfolding checkpoint_1_signals
open_answer-signals d p now h = let enough = enough_score d p now h in ground (arith, enough)

-- A trusted answer of `evaluate_trust` leaves checkpoint 1 nothing to detect but a missing hardware
-- key; and an answer that is not trusted makes it detect the failed integrity check, never the
-- missing token.
evaluate_trust-signals :
    (d : Device) (p : DeviceTrustPayload) (ip : ℕ) (action : Activity) (now : ℕ) (db : Db)
    → let answer =
        if is_listed p.device_fingerprint_hash db then untrusted else open_answer d p now in
      ((evaluate_trust d p ip action now db).0 ≡ ok answer)
      × (checkpoint_1_signals answer ≡ (
          if answer.trusted
          then (if p.is_hardware_backed_key then [] else hardware_key_missing ∷ [])
          else play_integrity_fail
            ∷ ((if answer.hardware_backed then [] else hardware_key_missing ∷ [])
                ++ (if ltb_ℤ answer.trust_score (pos 40) then low_trust_score ∷ [] else []))))
unfolding checkpoint_1_signals
evaluate_trust-signals d p ip action now db =
    elim (Bool-cases (is_listed p.device_fingerprint_hash db)) [
      | inl e ↦ rw e (ap (λ r. r.0) (evaluate_trust_listed d p ip action now db e), refl)
      | inr e ↦ rw e (elim (Bool-cases (has_token p.play_integrity_token)) [
        | inl h ↦
            let enough = enough_score d p now h in
            (ap (λ r. r.0) (evaluate_trust_token d p ip action now db e h), ground (arith, enough))
        | inr h ↦ (ap (λ r. r.0) (evaluate_trust_tokenless d p ip action now db e h), ground arith)
      ])
    ]
