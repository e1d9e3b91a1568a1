-- ===== src/Provisioning/Tests.antt =====
-- A verified user with one device asks for a token of 500.
use offimesh.Prelude.{
  ℕ, ◌+◌, ℤ, pos, ◌-ℤ◌, ◌+ℤ◌, ◌≡◌, refl, true, false, none, some, [], ◌∷◌, arith,
}
use offimesh.Exceptions.{Result, ok, err, attribute_error, session}
use offimesh.Ledger.Rows.{available, locked}
use offimesh.Ledger.Effects.{at}
use offimesh.Models.{user_active, Db, User, Device, standard}
use offimesh.Fraud.{recent_signals, sum_scores}
use offimesh.Trust.{DeviceTrustPayload}
use offimesh.Provisioning.{Fresh, newest, choose_device, grant_token, provision_token}
use offimesh.Provisioning.Grants.{provision_token-granted}

abbrev user : User
user = record {
  id = 1;
  name = none;
  nin_verified = true;
  bvn_verified = false;
  face_verified = true;
  balance_kobo = pos 0;
  phone_hash = 31;
  phone_salt = 32;
  email = none;
  pin_hash = none;
  role = 1;
  user_status = user_active;
}

abbrev device : Device
device = record {
  id = 3;
  user_id = 1;
  device_fingerprint = 33;
  trust_level = standard;
  registered_at = some 50;
  device_trust_score = pos 0;
  last_ip_address = 0;
  play_integrity_last_verdict = none;
  play_integrity_last_check = none;
  is_hardware_backed_key = true;
  play_integrity_fail_count = 0;
}

abbrev db : Db
db = record {
  books = record {
    balances =
        (record {
          user_id = 1;
          available_balance_kobo = pos 800;
          locked_in_offline_tokens_kobo = pos 0;
        })
        ∷ [];
    entries = [];
  };
  tokens = [];
  users = user ∷ [];
  devices = device ∷ [];
  transactions = [];
  events = [];
  settlements = [];
  signals = [];
  blacklist = [];
  activities = [];
  webhooks = [];
  accounts = [];
  verifications = [];
  audits = [];
}

abbrev payload : DeviceTrustPayload
payload = record {
  device_fingerprint_hash = 1033;
  play_integrity_token = some 77;
  is_hardware_backed_key = true;
}

abbrev fresh : Fresh
fresh = record { id = 7; nonce = 11 }

abbrev hash : ℕ → ℕ
hash n = n + 1000

abbrev sign : ℕ → ℕ → ℕ → ℤ → ℕ
sign u d serial a = u + d + serial

chosen : choose_device 1 none db ≡ (ok device, db)
unfolding choose_device newest
chosen = refl

-- The module of python-ulid has no `new`.
abbrev ulid_new : Result ℕ
ulid_new = err attribute_error

provision_token-granted_example :
    let run = provision_token hash 5 sign ulid_new 1 none (pos 500) (some payload) 0 fresh 100 in
    let (r, db') = run db in
    ((grant_token hash 5 sign ulid_new 1 none (pos 500) (some payload) 0 100 db).0
      ≡ ok (record {
        device = device;
        device_fingerprint_hash = 1033;
        amount_kobo = pos 500;
        ttl_hours = 72;
      }))
    × (r ≡ err attribute_error)
    × ((j : ℕ) → available j db'.books ≡ available j db.books -ℤ at 1 (pos 500) j)
    × ((j : ℕ) → locked j db'.books ≡ locked j db.books +ℤ at 1 (pos 500) j)
    × (session run db ≡ (err attribute_error, db))
unfolding recent_signals sum_scores
provision_token-granted_example =
    provision_token-granted hash 5 sign ulid_new 1 none (pos 500) (some payload) 0 fresh 100 db user
      device attribute_error refl refl refl chosen refl refl (omega arith) (omega arith)
      (omega arith) refl
