-- ===== src/Blacklist.antt =====
-- app/workers/blacklist_worker.py: the scan for devices to blacklist, and the manual task. The text
-- of the reason, which is only stored, is left out. A set of Python is a list without repetitions.
pub mod Scan
mod Tests
use offimesh.Prelude.{
  ℕ, suc, ◌+◌, Bool, true, false, ◌||◌, List, [], ◌∷◌, map, ◌==◌, leb, if◌then◌else◌, filter_by,
  length,
}
use offimesh.Exceptions.{Action, ok}
use offimesh.Models.{Db, FraudSignal, logged, device_auto_blacklisted, device_blacklisted}
use offimesh.Fraud.{week, count_by, is_double_spend, is_integrity_fail, is_listed}

abbrev pub threshold_signal_count : ℕ
threshold_signal_count = 3

abbrev pub threshold_double_spend : ℕ
threshold_double_spend = 2

abbrev pub threshold_integrity_fail : ℕ
threshold_integrity_fail = 3

abbrev pub contains : ℕ → List ℕ → Bool
contains h [] = false
contains h (x ∷ xs) = x == h || contains h xs

-- `set.add`, for each of a list.
unfoldable pub add_all : List ℕ → List ℕ → List ℕ
add_all [] set = set
add_all (h ∷ hs) set = let rest = add_all hs set in if contains h rest then rest else h ∷ rest

abbrev pub has_hash : ℕ → FraudSignal → Bool
has_hash h s = s.device_fingerprint_hash == h

-- `group_by(device_fingerprint_hash).having(count >= n)`
unfoldable pub groups : ℕ → List FraudSignal → List ℕ
groups n ss =
    filter_by (λ h. leb n (count_by (has_hash h) ss))
      (add_all (map (λ s. s.device_fingerprint_hash) ss) [])

-- `created_at >= cutoff`
abbrev pub is_in_week : ℕ → FraudSignal → Bool
is_in_week now s = leb now (s.created_at + week)

unfoldable pub candidates : ℕ → List FraudSignal → List ℕ
candidates now signals =
    let recent = filter_by (is_in_week now) signals in
    add_all (groups threshold_integrity_fail (filter_by is_integrity_fail recent)) (
      add_all (groups threshold_double_spend (filter_by is_double_spend recent))
        (add_all (groups threshold_signal_count recent) []))

abbrev pub add_to_blacklist : ℕ → Db → Db
add_to_blacklist h db = record db {
  blacklist = (record { device_fingerprint_hash = h }) ∷ db.blacklist;
}

-- The loop over the candidates: how many were listed, and the tables.
unfoldable pub blacklist_each : List ℕ → ℕ → Db → ℕ × Db
blacklist_each [] count db = (count, db)
blacklist_each (h ∷ hs) count db =
    if is_listed h db
    then blacklist_each hs count db
    else blacklist_each hs (suc count) (logged device_auto_blacklisted h (add_to_blacklist h db))

pub record ScanReport : Type 0 where
  pub scanned_devices : ℕ
  pub blacklisted : ℕ

unfoldable pub scan_for_blacklist_candidates : ℕ → Action Db ScanReport
scan_for_blacklist_candidates now db =
    let hashes = candidates now db.signals in
    let (count, db') = blacklist_each hashes 0 db in
    (ok (record { scanned_devices = length hashes; blacklisted = count }), db')

pub data BlacklistStatus : Type 0 where
  already_blacklisted newly_blacklisted : BlacklistStatus

unfoldable pub blacklist_device : ℕ → Action Db BlacklistStatus
blacklist_device h db =
    if is_listed h db
    then (ok already_blacklisted, db)
    else (ok newly_blacklisted, logged device_blacklisted h (add_to_blacklist h db))
