-- ===== src/Auth/Codes.antt =====
-- What the calls that take a one-time code do with it.
use offimesh.Prelude.{
  ℕ, ℤ, pos, ◌≡◌, refl, sym, subst, true, false, Option, none, some, find, key-find, inl, inr, ◌⊎◌,
  Bool-cases, Option-cases, arith,
}
use offimesh.Exceptions.{Action, pure, ◌>>◌, ok, err, not_found, authentication_error, invalid_otp}
use offimesh.Models.{User, user_key, Device}
use offimesh.Provisioning.{newest, active_devices}
use offimesh.Sync.Cache.{Redis, World, Key, otp_key}
use offimesh.Auth.{cached_code, matches, verify_otp, verify_login, issue_tokens, is_active_status}
use offimesh.Auth.Tokens.{Crypto, TokenPair}

-- SETEX and GET: a key that was just written has its value, unless it has expired.
abbrev pub IsCache : {C : Type 0} → Redis C → Type 0
IsCache redis =
    (key : Key) (ttl : ℕ) (v : ℤ) (c : _)
    → (redis.get key (redis.setex key ttl v c) ≡ none)
      ⊎ (redis.get key (redis.setex key ttl v c) ≡ some v)

-- No code is in the cache for the user.
abbrev pub HasNoCode : {C : Type 0} → Redis C → ℕ → World C → Type 0
HasNoCode redis user_id w = cached_code (redis.get (otp_key user_id) w.cache) ≡ none

-- The calls that take a code of the user.
pub data CodeCall : Type 0 where
  verifies : ℕ → CodeCall
  logs_in : ℕ → ℕ → ℕ → CodeCall

module _ {C T : Type 0} (redis : Redis C) (crypto : Crypto T) where
  cleared :
      (user_id : ℕ) (w : World C) (c : C)
      → IsCache redis
      → HasNoCode redis user_id (record w { cache = redis.setex (otp_key user_id) 1 (pos 0) c })
  cleared user_id w c h = elim (h (otp_key user_id) 1 (pos 0) c) [
    | inl expired ↦ rw expired refl
    | inr empty ↦ rw empty refl
  ]

  verify_otp_refused :
      (user_id otp : ℕ) (w : World C)
      → HasNoCode redis user_id w
      → verify_otp redis crypto user_id otp w ≡ (err invalid_otp, w)
  unfolding verify_otp
  verify_otp_refused user_id otp w h = rw h refl

  verify_login_refused :
      (user_id otp family now : ℕ) (w : World C)
      → HasNoCode redis user_id w
      → verify_login redis crypto user_id otp family now w ≡ (err invalid_otp, w)
  unfolding verify_login
  verify_login_refused user_id otp family now w h = rw h refl

  abbrev pub perform_code : ℕ → CodeCall → Action (World C) (Unit {0})
  perform_code user_id (verifies otp) = verify_otp redis crypto user_id otp
  perform_code user_id (logs_in otp family now) =
      verify_login redis crypto user_id otp family now >> pure tt

  pub perform_code_refused :
      (user_id : ℕ) (call : CodeCall) (w : World C)
      → HasNoCode redis user_id w
      → perform_code user_id call w ≡ (err invalid_otp, w)
  perform_code_refused user_id (verifies otp) w h = verify_otp_refused user_id otp w h
  perform_code_refused user_id (logs_in otp family now) w h =
      rw (verify_login_refused user_id otp family now w h) refl

  verify_otp_wrong :
      (user_id otp : ℕ) (w : World C)
      → matches (cached_code (redis.get (otp_key user_id) w.cache)) otp ≡ false
      → (verify_otp redis crypto user_id otp w).0 ≡ err invalid_otp
  unfolding verify_otp
  verify_otp_wrong user_id otp w bad = rw bad refl

  pub verify_otp-clears :
      (user_id otp : ℕ) (w : World C)
      → IsCache redis
      → (verify_otp redis crypto user_id otp w).0 ≡ ok tt
      → HasNoCode redis user_id (verify_otp redis crypto user_id otp w).1
  unfolding verify_otp
  verify_otp-clears user_id otp w h e =
      elim (Bool-cases (matches (cached_code (redis.get (otp_key user_id) w.cache)) otp)) [
        | inl good ↦ rw good (cleared user_id w w.cache h)
        | inr bad ↦ let wrong = verify_otp_wrong user_id otp w bad in absurd (ground arith)
      ]

  -- `issue_tokens` leaves the cache.
  issue_tokens-cache :
      (u : User) (d : Option Device) (family now : ℕ) (w : World C)
      → (issue_tokens redis crypto u d family now w).1.cache ≡ w.cache
  unfolding issue_tokens
  issue_tokens-cache u none family now w = refl
  issue_tokens-cache u (some d) family now w = refl

  verify_login_wrong :
      (user_id otp family now : ℕ) (w : World C)
      → matches (cached_code (redis.get (otp_key user_id) w.cache)) otp ≡ false
      → (verify_login redis crypto user_id otp family now w).0 ≡ err invalid_otp
  unfolding verify_login
  verify_login_wrong user_id otp family now w bad = rw bad refl

  verify_login_unknown :
      (user_id otp family now : ℕ) (w : World C)
      → matches (cached_code (redis.get (otp_key user_id) w.cache)) otp ≡ true
      → find user_key user_id w.db.users ≡ none
      → (verify_login redis crypto user_id otp family now w).0 ≡ err not_found
  unfolding verify_login
  verify_login_unknown user_id otp family now w good e = rw good (rw e refl)

  verify_login_inactive :
      (user_id otp family now : ℕ) (w : World C) (u : User)
      → matches (cached_code (redis.get (otp_key user_id) w.cache)) otp ≡ true
      → find user_key user_id w.db.users ≡ some u
      → is_active_status u.user_status ≡ false
      → (verify_login redis crypto user_id otp family now w).0 ≡ err authentication_error
  unfolding verify_login
  verify_login_inactive user_id otp family now w u good e a = rw good (rw e (rw a refl))

  -- The cache after the code of the user is taken.
  abbrev pub taken : ℕ → World C → World C
  taken user_id w = record w { cache = redis.setex (otp_key user_id) 1 (pos 0) w.cache }

  verify_login_active :
      (user_id otp family now : ℕ) (w : World C) (u : User)
      → matches (cached_code (redis.get (otp_key user_id) w.cache)) otp ≡ true
      → find user_key user_id w.db.users ≡ some u
      → is_active_status u.user_status ≡ true
      → verify_login redis crypto user_id otp family now w
        ≡ issue_tokens redis crypto u
            (newest (active_devices u.id w.db))
            family
            now
            (taken user_id w)
  unfolding verify_login
  verify_login_active user_id otp family now w u good e a = rw good (rw e (rw a refl))

  -- A login that returns tokens has taken the code and comes from `issue_tokens`.
  pub verify_login_ok :
      (user_id otp family now : ℕ) (pair : TokenPair T) (w : World C)
      → (verify_login redis crypto user_id otp family now w).0 ≡ ok pair
      → (u : User) × (u.id ≡ user_id)
        × (verify_login redis crypto user_id otp family now w
            ≡ issue_tokens redis crypto u
                (newest (active_devices u.id w.db))
                family
                now
                (taken user_id w))
  verify_login_ok user_id otp family now pair w e =
      elim (Bool-cases (matches (cached_code (redis.get (otp_key user_id) w.cache)) otp)) [
        | inr bad ↦
            let wrong = verify_login_wrong user_id otp family now w bad in absurd (ground arith)
        | inl good ↦ elim (Option-cases (find user_key user_id w.db.users)) [
          | inl missing ↦
              let wrong = verify_login_unknown user_id otp family now w good missing in
              absurd (ground arith)
          | inr (u, f) ↦ elim (Bool-cases (is_active_status u.user_status)) [
            | inr inactive ↦
                let wrong = verify_login_inactive user_id otp family now w u good f inactive in
                absurd (ground arith)
            | inl live ↦ (
              u,
              key-find user_key user_id w.db.users u f,
              verify_login_active user_id otp family now w u good f live,
            )
          ]
        ]
      ]

  pub verify_login-clears :
      (user_id otp family now : ℕ) (pair : TokenPair T) (w : World C)
      → IsCache redis
      → (verify_login redis crypto user_id otp family now w).0 ≡ ok pair
      → HasNoCode redis user_id (verify_login redis crypto user_id otp family now w).1
  verify_login-clears user_id otp family now pair w h e =
      let (u, _, run) = verify_login_ok user_id otp family now pair w e in
      rw run (
        subst (λ c. cached_code (redis.get (otp_key user_id) c) ≡ none)
          (sym
            (issue_tokens-cache u (newest (active_devices u.id w.db)) family now (taken user_id w)))
          (cleared user_id w w.cache h))
