-- ===== src/Auth/Tests.antt =====
-- Authentication with a cache of one key and transparent tokens.
use offimesh.Prelude.{
  ℕ, ℤ, pos, ◌+◌, ◌<◌, ◌≡◌, ◌≢◌, refl, true, false, ltb, Option, none, some, [], ◌∷◌, if◌then◌else◌,
  inr, arith,
}
use offimesh.Exceptions.{ok, err, conflict, invalid_otp, authentication_error, http_error}
use offimesh.Models.{User, user_active, Device, standard}
use offimesh.Provisioning.{newest}
use offimesh.Sync.Cache.{Redis, World}
use offimesh.Auth.{
  register, login, verify_login, issue_tokens, otp_sent, refresh_tokens, get_current_user,
}
use offimesh.Auth.Tokens.{Crypto, Claims, TokenPair, create_access_token, create_refresh_token}
use offimesh.Auth.Codes.{IsCache, logs_in, verifies, perform_code}
use offimesh.Auth.Logins.{IsSalted, perform_code_once, login_unknown}
use offimesh.Auth.Sessions.{IsSigning, IsIssued, verify_login-refresh_tokens}

abbrev cell : Redis (Option ℤ)
cell = record {
  setnx = λ _ c. (true, c);
  expire = λ _ _ c. c;
  get = λ _ c. c;
  setex = λ _ _ v _. some v;
}

abbrev plain : Crypto Claims
plain = record {
  scrypt = λ phone salt. salt;
  argon2 = λ pin salt. pin + salt;
  encode = λ claims. claims;
  decode = λ now claims. if ltb now claims.exp then some claims else none;
}

abbrev ada : User
ada = record {
  id = 1;
  name = some 7;
  nin_verified = false;
  bvn_verified = false;
  face_verified = false;
  balance_kobo = pos 0;
  phone_hash = 55;
  phone_salt = 55;
  email = none;
  pin_hash = none;
  role = 2;
  user_status = user_active;
}

abbrev phone_device : Device
phone_device = record {
  id = 20;
  user_id = 1;
  device_fingerprint = 9;
  trust_level = standard;
  registered_at = some 100;
  device_trust_score = pos 50;
  last_ip_address = 0;
  play_integrity_last_verdict = none;
  play_integrity_last_check = none;
  is_hardware_backed_key = true;
  play_integrity_fail_count = 0;
}

-- A code is in the cache.
abbrev world : World (Option ℤ)
world = record {
  db = record {
    books = record { balances = []; entries = [] };
    tokens = [];
    users = ada ∷ [];
    devices = phone_device ∷ [];
    transactions = [];
    events = [];
    settlements = [];
    signals = [];
    blacklist = [];
    activities = [];
    audits = [];
    webhooks = [];
    accounts = [];
    verifications = [];
  };
  cache = some (pos 123456);
}

cell-IsCache : IsCache cell
cell-IsCache key ttl v c = inr refl

plain-IsSalted : IsSalted plain
plain-IsSalted p q s t e = e

decode-plain :
    (claims : Claims) (now : ℕ)
    → now < claims.exp
    → (if ltb now claims.exp then some claims else none) ≡ some claims
decode-plain claims now h = ground arith

plain-IsSigning : IsSigning plain
plain-IsSigning claims now h = decode-plain claims now h

abbrev issued : TokenPair Claims
issued = record {
  access_token = create_access_token plain 1 20 2 1000;
  refresh_token = create_refresh_token plain 1 20 77 1000;
}

logged_in : (verify_login cell plain 1 123456 77 1000 world).0 ≡ ok issued
unfolding verify_login newest issue_tokens
logged_in = refl

first_use : (perform_code cell plain 1 (logs_in 123456 77 1000) world).0 ≡ ok tt
unfolding verify_login newest issue_tokens
first_use = refl

perform_code_once_example :
    let w = (perform_code cell plain 1 (logs_in 123456 77 1000) world).1 in
    perform_code cell plain 1 (verifies 123456) w ≡ (err invalid_otp, w)
perform_code_once_example =
    perform_code_once cell plain 1 (logs_in 123456 77 1000) (verifies 123456) world cell-IsCache
      first_use

login_unknown_example :
    (login cell plain 8031 99 4444 world ≡ (ok (otp_sent none), world))
    × ((register cell plain 8031 none 1 99 5 world).0 ≢ err conflict)
login_unknown_example =
    login_unknown cell plain 8031 99 4444 1 5 none world plain-IsSalted ((8031, refl), tt)
      ((λ e. omega (arith, e)), tt)

verify_login-refresh_tokens_example :
    (get_current_user cell plain (some issued.access_token) 1500 world ≡ (ok ada, world))
    × (refresh_tokens cell plain issued.access_token 78 1500 world
        ≡ (err authentication_error, world))
    × (get_current_user cell plain (some issued.refresh_token) 600000 world
        ≡ (err (http_error 401), world))
    × ((pair' : TokenPair Claims) × (refresh_tokens cell plain issued.refresh_token 78 600000 world
          ≡ (ok pair', world))
        × IsIssued plain 1 78 600000 pair')
verify_login-refresh_tokens_example =
    verify_login-refresh_tokens cell plain 1 123456 77 1000 78 600000 1500 issued ada world world
      plain-IsSigning logged_in (omega arith) (omega arith) refl refl refl
