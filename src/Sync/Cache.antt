-- ===== src/Sync/Cache.antt =====
-- app/core/redis.py: the nonce, sequence and one-time-password keys. The commands of Redis are a parameter, the
-- running of its clock included.
use offimesh.Prelude.{ℕ, ℤ, Bool, Option, if◌then◌else◌}
use offimesh.Exceptions.{Action, ok, modify, gets, err, Result}
use offimesh.Models.{Db, hours}

pub data Key : Type 0 where
  nonce_key : ℕ → Key
  seq_key : ℕ → ℕ → Key
  otp_key : ℕ → Key

-- SETNX, EXPIRE, GET and SETEX on a server in state `C`.
pub record Redis (C : Type 0) : Type 0 where
  pub setnx : Key → C → Bool × C
  pub expire : Key → ℕ → C → C
  pub get : Key → C → Option ℤ
  pub setex : Key → ℕ → ℤ → C → C

-- What a request works on: its database session and Redis.
pub record World (C : Type 0) : Type 0 where
  pub db : Db
  pub cache : C

abbrev pub on_db : {C A : Type 0} → Action Db A → Action (World C) A
on_db m w = let (r, db) = m w.db in (r, record w { db = db })

-- The end of a request: an exception rolls the session back, and leaves Redis as it is.
abbrev pub settle_request : {C A : Type 0} → World C → Result A × World C → Result A × World C
settle_request w (ok a, w') = (ok a, w')
settle_request w (err e, w') = (err e, record w' { db = w.db })

abbrev pub request : {C A : Type 0} → Action (World C) A → Action (World C) A
request m w = settle_request w (m w)

module _ {C : Type 0} (redis : Redis C) where
  unfoldable pub check_and_store_nonce : ℕ → Action (World C) Bool
  check_and_store_nonce nonce w =
      let (result, stored) = redis.setnx (nonce_key nonce) w.cache in
      (
        ok result,
        record w {
          cache = if result then redis.expire (nonce_key nonce) (hours 48) stored else stored;
        },
      )

  unfoldable pub get_last_sequence : ℕ → ℕ → Action (World C) (Option ℤ)
  get_last_sequence device_id token_id = gets (λ w. redis.get (seq_key device_id token_id) w.cache)

  unfoldable pub set_last_sequence : ℕ → ℕ → ℤ → Action (World C) (Unit {0})
  set_last_sequence device_id token_id seq =
      modify
        (λ w. record w { cache = redis.setex (seq_key device_id token_id) (hours 48) seq w.cache })
