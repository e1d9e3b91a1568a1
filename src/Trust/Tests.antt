-- ===== src/Trust/Tests.antt =====
-- A device with a hardware key and one without an integrity token.
use offimesh.Prelude.{pos, ◌+ℤ◌, ◌≡◌, refl, false, none, some, [], ◌∷◌}
use offimesh.Exceptions.{ok}
use offimesh.Models.{Db, Device, elevated, token_provisioning}
use offimesh.Trust.{DeviceTrustPayload, evaluate_trust}
use offimesh.Trust.Recalculation.{
  recalculated_score, score_points, verdict_points, failure_points, level_points,
  registration_points, activity_points, recent_logs, sort_logs, first_logs,
}
use offimesh.Trust.Verdicts.{evaluate_trust-decides, open_answer, recorded}

abbrev device : Device
device = record {
  id = 3;
  user_id = 1;
  device_fingerprint = 33;
  trust_level = elevated;
  registered_at = some 50;
  device_trust_score = pos 0;
  last_ip_address = 0;
  play_integrity_last_verdict = none;
  play_integrity_last_check = none;
  is_hardware_backed_key = false;
  play_integrity_fail_count = 0;
}

abbrev payload : DeviceTrustPayload
payload = record {
  device_fingerprint_hash = 9;
  play_integrity_token = some 77;
  is_hardware_backed_key = false;
}

abbrev db : Db
db = record {
  books = record { balances = []; entries = [] };
  tokens = [];
  users = [];
  devices = device ∷ [];
  transactions = [];
  events = [];
  settlements = [];
  signals = [];
  blacklist = [];
  activities = [];
  webhooks = [];
  accounts = [];
  verifications = [];
  audits = [];
}

evaluate_trust-decides_example : evaluate_trust device payload 5 token_provisioning 9000000 db ≡ (
  ok (open_answer device payload 9000000),
  recorded device payload 5 token_provisioning 9000000 db,
)
evaluate_trust-decides_example =
    evaluate_trust-decides device payload 5 token_provisioning 9000000 db

-- Elevated, and registered for more than two months.
score_of_elevated : recalculated_score device 9000000 db ≡ pos 35
unfolding recalculated_score score_points verdict_points failure_points level_points
    registration_points activity_points recent_logs sort_logs first_logs ◌+ℤ◌
score_of_elevated = refl
