-- ===== src/Fraud/Tests.antt =====
-- A device under test at checkpoints 1 and 2.
use offimesh.Prelude.{◌≡◌, pos, true, false, List, [], ◌∷◌, length, none}
use offimesh.Exceptions.{ok}
use offimesh.Models.{Db, SignalType, token_replay, double_spend_attempt}
use offimesh.Fraud.{
  TrustResult, recent_signals, sum_scores, sum_signal_scores, is_listed, should_blacklist, assess,
  signal_score,
}
use offimesh.Fraud.Checkpoints.{assess-verdict}

abbrev db : Db
db = record {
  books = record { balances = []; entries = [] };
  tokens = [];
  users = [];
  devices = [];
  transactions = [];
  events = [];
  settlements = [];
  signals = [];
  blacklist = [];
  activities = [];
  webhooks = [];
  accounts = [];
  verifications = [];
  audits = [];
}

abbrev replayed : List SignalType
replayed = token_replay ∷ double_spend_attempt ∷ []

assess-verdict_example :
    let db' = (assess 1 9 replayed 60 100 db).1 in
    let after = recent_signals 9 100 db'.signals in
    ((assess 1 9 replayed 60 100 db).0
      ≡ ok (record {
        fraud_score = 95;
        blocked = true;
        signals_detected = replayed;
        historical_score = 0;
      }))
    × (length after ≡ 2)
    × (sum_scores after ≡ 95)
    × (is_listed 9 db' ≡ should_blacklist after)
unfolding recent_signals sum_scores sum_signal_scores signal_score
assess-verdict_example = assess-verdict 1 9 replayed 60 100 db

-- A software-backed device that is trusted otherwise.
abbrev trust : TrustResult
trust = record {
  trusted = true;
  trust_score = pos 55;
  limits = record { max_token_kobo = pos 200000; ttl_hours = 24 };
  play_integrity_passed = true;
  hardware_backed = false;
  verdict = none;
}
