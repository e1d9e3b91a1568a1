-- ===== src/Blacklist/Tests.antt =====
-- The blacklist scan at a few signals.
use offimesh.Prelude.{ℕ, ◌+◌, ◌≡◌, refl, true, ◌||◌, [], ◌∷◌, length}
use offimesh.Exceptions.{ok}
use offimesh.Models.{
  Db, FraudSignal, SignalType, token_replay, double_spend_attempt, low_trust_score,
}
use offimesh.Fraud.{count_by, is_listed, should_blacklist, recent_signals}
use offimesh.Blacklist.{
  add_all, groups, candidates, blacklist_each, ScanReport, scan_for_blacklist_candidates,
}
use offimesh.Blacklist.Scan.{scan-lists}

abbrev seen : ℕ → SignalType → ℕ → FraudSignal
seen hash t now = record {
  user_id = 1;
  device_fingerprint_hash = hash;
  signal_type = t;
  score_contribution = 10;
  created_at = now;
}

-- Two double spends on device 5; three signals on device 6, one of them too old.
abbrev tables : Db
tables = record {
  books = record { balances = []; entries = [] };
  tokens = [];
  users = [];
  devices = [];
  transactions = [];
  events = [];
  settlements = [];
  signals =
      seen 5 double_spend_attempt 900000
      ∷ seen 6 token_replay 900000
      ∷ seen 5 double_spend_attempt 800000
      ∷ seen 6 low_trust_score 700000
      ∷ seen 6 token_replay 100000
      ∷ [];
  blacklist = [];
  activities = [];
  audits = [];
  webhooks = [];
  accounts = [];
  verifications = [];
}

five_listed : is_listed 5 (scan_for_blacklist_candidates 1000000 tables).1 ≡ true
unfolding scan_for_blacklist_candidates candidates groups add_all blacklist_each count_by
five_listed = refl

only_five :
    (scan_for_blacklist_candidates 1000000 tables).0
    ≡ ok (record { scanned_devices = 1; blacklisted = 1 })
unfolding scan_for_blacklist_candidates candidates groups add_all blacklist_each count_by
only_five = refl

scan-lists_example :
    let (r, db') = scan_for_blacklist_candidates 1000000 tables in
    ((h : ℕ)
      → is_listed h db'
        ≡ (is_listed h tables || should_blacklist (recent_signals h 1000000 tables.signals)))
    × ((report : ScanReport) × (r ≡ ok report) × (length db'.blacklist ≡ 0 + report.blacklisted))
scan-lists_example = scan-lists 1000000 tables
