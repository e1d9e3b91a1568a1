-- ===== src/Auth.antt =====
-- app/services/auth_service.py, app/repositories/user_repository.py and the tokens and hashes of
-- app/core/security.py. Strings are numbers, 0 the empty one. A message that cannot be sent is only
-- logged, so that the sending of messages is left out; fresh salts, codes, ids and the time are
-- arguments of a call.
pub mod Tokens
pub mod Codes
pub mod Logins
pub mod Sessions
mod Tests
use offimesh.Prelude.{
  ℕ, ℤ, pos, pos_part, is_zero, ◌+◌, ◌*◌, ltb, Bool, true, false, not, ◌&&◌, ◌||◌, Option, none,
  some, List, [], ◌∷◌, ◌==◌, if◌then◌else◌, find, replace, is_some, filter_by, length,
}
use offimesh.Exceptions.{
  Action, Result, ok, err, pure, raise, raise_if, gets, or_raise, modify, ◌>>=◌, ◌>>◌, conflict,
  invalid_otp, authentication_error, invalid_token, not_found, import_error, http_error,
  syntax_error, integrity_error,
}
use offimesh.Models.{
  Db, audit, User, user_key, UserStatus, user_active, pending_verification, other_user_status,
  Device, user_verified, login_initiated, login_completed, pin_was_set,
}
use offimesh.Provisioning.{newest, active_devices}
use offimesh.Sync.Cache.{Redis, World, Key, otp_key, on_db}
use offimesh.Auth.Tokens.{
  Crypto, Claims, TokenType, access, refresh, TokenPair, create_access_token, create_refresh_token,
}

abbrev pub phone_key : User → ℕ
phone_key u = u.phone_hash

-- An `update(User).where(id == ...)`.
unfoldable pub update_user_row : ℕ → (User → User) → Db → Db
update_user_row id change db = elim (find user_key id db.users) [
  | none ↦ db
  | some u ↦ record db { users = replace user_key (change u) db.users }
]

abbrev pub is_active_status : UserStatus → Bool
is_active_status user_active = true
is_active_status pending_verification = false
is_active_status other_user_status = false

-- The code in the cache, if it is there and not empty.
abbrev pub cached_code : Option ℤ → Option ℕ
cached_code none = none
cached_code (some v) = if is_zero v then none else some (pos_part v)

abbrev pub matches : Option ℕ → ℕ → Bool
matches none otp = false
matches (some code) otp = otp == code

-- `email` is unique.
abbrev has_email : Option ℕ → ℕ → User → Bool
has_email none user_id u = false
has_email (some e) user_id u =
    not (u.id == user_id) && elim u.email [ none ↦ false | some f ↦ e == f ]

abbrev pub is_taken : ℕ → Option ℕ → Db → Bool
is_taken user_id email db = ltb 0 (length (filter_by (has_email email user_id) db.users))

pub data LoginReply : Type 0 where
  otp_sent : Option ℕ → LoginReply

abbrev pub new_user : ℕ → ℕ → ℕ → Option ℕ → ℕ → User
new_user id hash salt name role = record {
  id = id;
  name = name;
  nin_verified = false;
  bvn_verified = false;
  face_verified = false;
  balance_kobo = pos 0;
  phone_hash = hash;
  phone_salt = salt;
  email = none;
  pin_hash = none;
  role = role;
  user_status = pending_verification;
}

module _ {C T : Type 0} (redis : Redis C) (crypto : Crypto T) where
  -- `cache_set` of a code.
  abbrev pub set_code : ℕ → ℕ → ℕ → Action (World C) (Unit {0})
  set_code user_id code ttl =
      modify (λ w. record w { cache = redis.setex (otp_key user_id) ttl (pos code) w.cache })

  abbrev pub get_code : ℕ → Action (World C) (Option ℕ)
  get_code user_id = gets (λ w. cached_code (redis.get (otp_key user_id) w.cache))

  -- The wallet service cannot be imported, for its file does not parse.
  unfoldable pub register : ℕ → Option ℕ → ℕ → ℕ → ℕ → Action (World C) (Unit {0})
  register phone name role salt id = do
    existing ← on_db (gets (λ db. find phone_key (crypto.scrypt phone salt) db.users))
    raise_if (is_some existing) conflict
    on_db (
        modify (λ db. record db {
          users = new_user id (crypto.scrypt phone salt) salt name role ∷ db.users;
        }))
    raise syntax_error

  unfoldable pub verify_otp : ℕ → ℕ → Action (World C) (Unit {0})
  verify_otp user_id otp = do
    code ← get_code user_id
    raise_if (not (matches code otp)) invalid_otp
    on_db (modify (update_user_row user_id (λ u. record u { user_status = user_active })))
    set_code user_id 0 1
    on_db (audit user_verified user_id)

  unfoldable pub send_code : ℕ → Option User → Action (World C) LoginReply
  send_code otp none = pure (otp_sent none)
  send_code otp (some user) = do
    set_code user.id otp 600
    on_db (audit login_initiated user.id)
    pure (otp_sent (some user.id))

  -- The hash is taken with a fresh salt.
  unfoldable pub login : ℕ → ℕ → ℕ → Action (World C) LoginReply
  login phone salt otp =
      on_db (gets (λ db. find phone_key (crypto.scrypt phone salt) db.users)) >>= send_code otp

  -- A device of the web is created without `device_fingerprint_hash`, which is NOT NULL.
  unfoldable pub issue_tokens : User → Option Device → ℕ → ℕ → Action (World C) (TokenPair T)
  issue_tokens user none family now = raise integrity_error
  issue_tokens user (some device) family now = do
    on_db (audit login_completed user.id)
    pure (record {
      access_token = create_access_token crypto user.id device.id user.role now;
      refresh_token = create_refresh_token crypto user.id device.id family now;
    })

  unfoldable pub verify_login : ℕ → ℕ → ℕ → ℕ → Action (World C) (TokenPair T)
  verify_login user_id otp family now = do
    code ← get_code user_id
    raise_if (not (matches code otp)) invalid_otp
    found ← on_db (gets (λ db. find user_key user_id db.users))
    user ← or_raise found not_found
    raise_if (not (is_active_status user.user_status)) authentication_error
    set_code user_id 0 1
    device ← on_db (gets (λ db. newest (active_devices user.id db)))
    issue_tokens user device family now

  unfoldable pub refresh_claims : Option Claims → ℕ → ℕ → Action (World C) (TokenPair T)
  refresh_claims none family now = raise invalid_token
  refresh_claims (some claims) family now = do
    raise_if (not (elim claims.token_type [ refresh ↦ true | access ↦ false ])) authentication_error
    user ← on_db (gets (λ db. find user_key claims.sub db.users))
    user ← or_raise user authentication_error
    raise_if (not (is_active_status user.user_status)) authentication_error
    pure (record {
      access_token = create_access_token crypto claims.sub claims.device_id user.role now;
      refresh_token = create_refresh_token crypto claims.sub claims.device_id family now;
    })

  unfoldable pub refresh_tokens : T → ℕ → ℕ → Action (World C) (TokenPair T)
  refresh_tokens token family now = refresh_claims (crypto.decode now token) family now

  -- `get_current_user` of app/middleware/auth.py. It catches the `InvalidTokenError` of
  -- app/core/exceptions.py, and not the one of app/core/security.py that is raised.
  unfoldable pub user_of_claims : Option Claims → Action (World C) User
  user_of_claims none = raise invalid_token
  user_of_claims (some claims) = do
    raise_if (not (elim claims.token_type [ access ↦ true | refresh ↦ false ])) (http_error 401)
    raise_if (claims.sub == 0) (http_error 401)
    found ← on_db (gets (λ db. find user_key claims.sub db.users))
    user ← or_raise found (http_error 401)
    raise_if (not (is_active_status user.user_status)) (http_error 403)
    pure user

  unfoldable pub get_current_user : Option T → ℕ → Action (World C) User
  get_current_user none now = raise (http_error 401)
  get_current_user (some token) now = user_of_claims (crypto.decode now token)

  unfoldable pub set_pin : ℕ → ℕ → ℕ → Action (World C) (Unit {0})
  set_pin user_id pin salt = do
    on_db (
        modify
          (update_user_row user_id (λ u. record u { pin_hash = some (crypto.argon2 pin salt) })))
    on_db (audit pin_was_set user_id)

  -- The counters of attempts that it imports from app/core/redis.py are not there.
  unfoldable pub verify_pin : ℕ → ℕ → Action (World C) Bool
  verify_pin user_id pin = raise import_error

  unfoldable pub get_user : ℕ → Action (World C) User
  get_user user_id = do
    found ← on_db (gets (λ db. find user_key user_id db.users))
    or_raise found not_found

  abbrev given : Option ℕ → Option ℕ → Option ℕ
  given none old = old
  given (some s) old = if s == 0 then old else some s

  unfoldable pub update_user : ℕ → Option ℕ → Option ℕ → Action (World C) User
  update_user user_id name email = do
    user ← get_user user_id
    let changed = record user { name = given name user.name; email = given email user.email }
    taken ← on_db (gets (is_taken user_id changed.email))
    raise_if taken integrity_error
    on_db (modify (update_user_row user_id (λ _. changed)))
    pure changed
