-- ===== src/Auth/Tokens.antt =====
-- The JWTs of app/core/security.py. Hashing and signing belong to libraries.
use offimesh.Prelude.{ℕ, ◌+◌, ◌*◌, Option, none, some}

pub data TokenType : Type 0 where
  access refresh : TokenType

pub record Claims : Type 0 where
  pub sub : ℕ
  pub device_id : ℕ
  pub role : Option ℕ
  pub family : Option ℕ
  pub token_type : TokenType
  pub iat : ℕ
  pub exp : ℕ

-- A JWT is a `T`. scrypt of a phone number and argon2 of a PIN, each with its salt; `jwt.encode` with the private
-- key, and `jwt.decode` at a time, which answers the claims of a genuine token that is not expired.
pub record Crypto (T : Type 0) : Type 0 where
  pub scrypt : ℕ → ℕ → ℕ
  pub argon2 : ℕ → ℕ → ℕ
  pub encode : Claims → T
  pub decode : ℕ → T → Option Claims

-- In seconds, by the settings' defaults.
abbrev pub access_ttl : ℕ
access_ttl = 15 * 60

abbrev pub refresh_ttl : ℕ
refresh_ttl = 7 * 86400

unfoldable pub create_access_token : {T : Type 0} → Crypto T → ℕ → ℕ → ℕ → ℕ → T
create_access_token crypto subject device_id role now = crypto.encode (record {
  sub = subject;
  device_id = device_id;
  role = some role;
  family = none;
  token_type = access;
  iat = now;
  exp = now + access_ttl;
})

unfoldable pub create_refresh_token : {T : Type 0} → Crypto T → ℕ → ℕ → ℕ → ℕ → T
create_refresh_token crypto subject device_id family now = crypto.encode (record {
  sub = subject;
  device_id = device_id;
  role = none;
  family = some family;
  token_type = refresh;
  iat = now;
  exp = now + refresh_ttl;
})

pub record TokenPair (T : Type 0) : Type 0 where
  pub access_token : T
  pub refresh_token : T
