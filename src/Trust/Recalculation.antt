-- ===== src/Trust/Recalculation.antt =====
-- The recalculation of one score in app/workers/device_trust_recalc_worker.py. An attempt of the task
-- runs in a session; the wrapper that retries it is left to the task queue.
use offimesh.Prelude.{
  ℕ, zero, suc, ◌+◌, ◌*◌, ℤ, pos, negsuc, ◌+ℤ◌, ◌-ℤ◌, ◌≤ℤ◌, leb_ℤ, ltb_ℤ, min_ℤ, max_ℤ, ltb, leb,
  ◌&&◌, Option, none, some, List, [], ◌∷◌, ◌==◌, if◌then◌else◌, find, replace, filter_by, length,
  All, All-replace, Option-cases, inl, inr,
}
use offimesh.Exceptions.{Action, pure, gets, modify, or_raise, value_error, ◌>>=◌, ◌>>◌}
use offimesh.Models.{
  Db, audit, trust_score_recalculated, Device, device_key, DeviceActivityLog, TrustLevel, standard,
  elevated, Verdict, meets_device_integrity, meets_basic_integrity,
}
use offimesh.Trust.{is_older_than, days}
use offimesh.Trust.Scores.{clamp, clamp-bounds}

-- `order_by(created_at.desc())` and `limit`
unfoldable pub insert_log : DeviceActivityLog → List DeviceActivityLog → List DeviceActivityLog
insert_log a [] = a ∷ []
insert_log a (b ∷ bs) =
    let rest = insert_log a bs in if ltb a.created_at b.created_at then b ∷ rest else a ∷ b ∷ bs

unfoldable pub sort_logs : List DeviceActivityLog → List DeviceActivityLog
sort_logs [] = []
sort_logs (a ∷ logs) = insert_log a (sort_logs logs)

unfoldable pub first_logs : ℕ → List DeviceActivityLog → List DeviceActivityLog
first_logs zero logs = []
first_logs (suc n) [] = []
first_logs (suc n) (a ∷ logs) = a ∷ first_logs n logs

unfoldable pub recent_logs : ℕ → ℕ → Db → List DeviceActivityLog
recent_logs device_id now db = first_logs 100 (
    sort_logs (
      filter_by (λ a. (a.device_id == device_id) && leb now (a.created_at + days 30))
        db.activities))

unfoldable pub total_trust : List DeviceActivityLog → ℤ
total_trust [] = pos 0
total_trust (a ∷ logs) = a.device_trust_score +ℤ total_trust logs

-- The average is compared by its total: the quotient is above or below a bound as the total is.
unfoldable pub activity_points : List DeviceActivityLog → ℤ
activity_points [] = pos 0
activity_points (a ∷ logs) =
    let n = length (a ∷ logs) in
    let total = total_trust (a ∷ logs) in
    (if leb 10 n then pos 5 else pos 0)
    +ℤ (if leb_ℤ (pos (60 * n)) total
        then pos 5
        else if ltb_ℤ total (pos (30 * n))
        then negsuc 9
        else pos 0)

unfoldable pub verdict_points : Option Verdict → ℤ
verdict_points none = pos 0
verdict_points (some meets_device_integrity) = pos 40
verdict_points (some meets_basic_integrity) = pos 25
verdict_points (some _) = pos 0

unfoldable pub failure_points : ℕ → ℤ
failure_points fails = if ltb 0 fails then pos 0 -ℤ min_ℤ (pos (fails * 10)) (pos 30) else pos 0

unfoldable pub level_points : TrustLevel → ℤ
level_points elevated = pos 20
level_points standard = pos 10
level_points _ = pos 0

unfoldable pub registration_points : Option ℕ → ℕ → ℤ
registration_points none now = pos 0
registration_points (some registered_at) now =
    if is_older_than 60 registered_at now
    then pos 15
    else if is_older_than 30 registered_at now
    then pos 10
    else if is_older_than 7 registered_at now
    then pos 5
    else pos 0

-- The score before it is cut to the range from 0 to 100.
unfoldable pub score_points : Device → ℕ → Db → ℤ
score_points device now db =
    verdict_points device.play_integrity_last_verdict
    +ℤ failure_points device.play_integrity_fail_count
    +ℤ (if device.is_hardware_backed_key then pos 25 else pos 0)
    +ℤ level_points device.trust_level
    +ℤ registration_points device.registered_at now
    +ℤ activity_points (recent_logs device.id now db)

unfoldable pub recalculated_score : Device → ℕ → Db → ℤ
recalculated_score device now db = max_ℤ (pos 0) (min_ℤ (pos 100) (score_points device now db))

pub data NewLevel : Type 0 where
  elevated_level standard_level limited_level : NewLevel

unfoldable pub determine_trust_level : ℤ → NewLevel
determine_trust_level score =
    if leb_ℤ (pos 70) score
    then elevated_level
    else if leb_ℤ (pos 40) score
    then standard_level
    else limited_level

pub record Recalculated : Type 0 where
  pub old_score : ℤ
  pub new_score : ℤ
  pub trust_level : NewLevel

unfoldable pub recalculate_device_trust : ℕ → ℕ → Action Db Recalculated
recalculate_device_trust device_id now = do
  found ← gets (λ db. find device_key device_id db.devices)
  device ← or_raise found value_error
  new_score ← gets (recalculated_score device now)
  modify (λ db. record db {
    devices = replace device_key (record device { device_trust_score = new_score }) db.devices;
  })
  audit trust_score_recalculated device_id
  pure (record {
    old_score = device.device_trust_score;
    new_score = new_score;
    trust_level = determine_trust_level new_score;
  })

abbrev HasScore : Device → Type 0
HasScore d = (pos 0 ≤ℤ d.device_trust_score) × (d.device_trust_score ≤ℤ pos 100)

recalculated_score-bounds :
    (d : Device) (now : ℕ) (db : Db)
    → (pos 0 ≤ℤ recalculated_score d now db) × (recalculated_score d now db ≤ℤ pos 100)
unfolding recalculated_score clamp
recalculated_score-bounds d now db = clamp-bounds (score_points d now db)

-- A recalculation, of a known device or not, keeps the scores of all devices between 0 and 100.
recalculate_device_trust-HasScore :
    (device_id now : ℕ) (db : Db)
    → All HasScore db.devices
    → All HasScore (recalculate_device_trust device_id now db).1.devices
unfolding recalculate_device_trust
recalculate_device_trust-HasScore device_id now db h =
    elim (Option-cases (find device_key device_id db.devices)) [
      | inl unknown ↦ rw unknown h
      | inr (d, known) ↦
          rw known
            (All-replace device_key HasScore _ db.devices (recalculated_score-bounds d now db) h)
    ]
