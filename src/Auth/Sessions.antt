-- ===== src/Auth/Sessions.antt =====
-- The tokens that a login issues, and their refreshing.
use offimesh.Prelude.{
  ℕ, ◌+◌, ◌<◌, ◌==◌, ◌≡◌, refl, ap, ◌∙◌, sym, subst, true, Option, none, some, find, arith, false,
}
use offimesh.Exceptions.{Result, ok, ok-injective, err, authentication_error, http_error}
use offimesh.Models.{User, user_key, Device}
use offimesh.Provisioning.{newest, active_devices}
use offimesh.Sync.Cache.{Redis, World}
use offimesh.Auth.{
  is_active_status, issue_tokens, verify_login, refresh_claims, refresh_tokens, get_current_user,
  user_of_claims,
}
use offimesh.Auth.Codes.{verify_login_ok}
use offimesh.Auth.Tokens.{
  Crypto, Claims, access, refresh, TokenPair, access_ttl, refresh_ttl, create_access_token,
  create_refresh_token,
}

-- A token that was signed decodes to its claims until it expires.
abbrev pub IsSigning : {T : Type 0} → Crypto T → Type 0
IsSigning crypto =
    (claims : Claims) (now : ℕ)
    → now < claims.exp
    → crypto.decode now (crypto.encode claims) ≡ some claims

-- The tokens of a login are for the user.
pub record IsIssued {T : Type 0} (crypto : Crypto T) (user_id family now : ℕ) (pair : TokenPair T)
    : Type 0 where
  pub device_id : ℕ
  pub role : ℕ
  pub opens : pair.access_token ≡ create_access_token crypto user_id device_id role now
  pub renews : pair.refresh_token ≡ create_refresh_token crypto user_id device_id family now

module _ {C T : Type 0} (redis : Redis C) (crypto : Crypto T) where
  issue_tokens-IsIssued :
      (u : User) (d : Option Device) (family now : ℕ) (pair : TokenPair T) (w : World C)
      → (issue_tokens redis crypto u d family now w).0 ≡ ok pair
      → IsIssued crypto u.id family now pair
  unfolding issue_tokens
  issue_tokens-IsIssued u none family now pair w e = absurd (ground arith)
  issue_tokens-IsIssued u (some d) family now pair w e =
      let same = ok-injective _ pair e in
      record {
        device_id = d.id;
        role = u.role;
        opens = sym (ap (λ (p : TokenPair T). p.access_token) same);
        renews = sym (ap (λ (p : TokenPair T). p.refresh_token) same);
      }

  verify_login-IsIssued :
      (user_id otp family now : ℕ) (pair : TokenPair T) (w : World C)
      → (verify_login redis crypto user_id otp family now w).0 ≡ ok pair
      → IsIssued crypto user_id family now pair
  verify_login-IsIssued user_id otp family now pair w e =
      let (u, same, run) = verify_login_ok redis crypto user_id otp family now pair w e in
      subst (λ i. IsIssued crypto i family now pair) same
        (issue_tokens-IsIssued u (newest (active_devices u.id w.db)) family now pair _
          (sym (ap (λ (r : Result (TokenPair T) × World C). r.0) run) ∙ e))

  refresh_claims_active :
      (claims : Claims) (family now : ℕ) (w : World C) (u : User)
      → claims.token_type ≡ refresh
      → find user_key claims.sub w.db.users ≡ some u
      → is_active_status u.user_status ≡ true
      → refresh_claims redis crypto (some claims) family now w ≡ (
        ok (record {
          access_token = create_access_token crypto claims.sub claims.device_id u.role now;
          refresh_token = create_refresh_token crypto claims.sub claims.device_id family now;
        }),
        w,
      )
  unfolding refresh_claims
  refresh_claims_active claims family now w u e f g = rw e (rw f (rw g refl))

  refresh_claims_access :
      (claims : Claims) (family now : ℕ) (w : World C)
      → claims.token_type ≡ access
      → refresh_claims redis crypto (some claims) family now w ≡ (err authentication_error, w)
  unfolding refresh_claims
  refresh_claims_access claims family now w e = rw e refl

  refresh_tokens_decoded :
      (claims : Claims) (token : T) (family now : ℕ) (w : World C)
      → crypto.decode now token ≡ some claims
      → refresh_tokens redis crypto token family now w
        ≡ refresh_claims redis crypto (some claims) family now w
  unfolding refresh_tokens
  refresh_tokens_decoded claims token family now w e =
      ap (λ o. refresh_claims redis crypto o family now w) e

  refresh_created :
      (user_id device_id family now family' now' : ℕ) (u : User) (v : World C)
      → IsSigning crypto
      → now' < now + refresh_ttl
      → find user_key user_id v.db.users ≡ some u
      → is_active_status u.user_status ≡ true
      → (pair' : TokenPair T) × (refresh_tokens redis crypto
            (create_refresh_token crypto user_id device_id family now)
            family'
            now'
            v
          ≡ (ok pair', v))
        × IsIssued crypto user_id family' now' pair'
  unfolding create_refresh_token
  refresh_created user_id device_id family now family' now' u v signs soon found live = (
    _,
    refresh_tokens_decoded _ _ family' now' v (signs _ now' soon)
        ∙ refresh_claims_active _ family' now' v u refl found live,
    record { device_id = device_id; role = u.role; opens = refl; renews = refl },
  )

  access_refused :
      (user_id device_id role now family' now' : ℕ) (v : World C)
      → IsSigning crypto
      → now' < now + access_ttl
      → refresh_tokens redis crypto
          (create_access_token crypto user_id device_id role now)
          family'
          now'
          v
        ≡ (err authentication_error, v)
  unfolding create_access_token
  access_refused user_id device_id role now family' now' v signs soon =
      refresh_tokens_decoded _ _ family' now' v (signs _ now' soon)
      ∙ refresh_claims_access _ family' now' v refl

  claims_accepted :
      (claims : Claims) (w : World C) (u : User)
      → claims.token_type ≡ access
      → claims.sub == 0 ≡ false
      → find user_key claims.sub w.db.users ≡ some u
      → is_active_status u.user_status ≡ true
      → user_of_claims redis crypto (some claims) w ≡ (ok u, w)
  unfolding user_of_claims
  claims_accepted claims w u e n f g = rw e (rw n (rw f (rw g refl)))

  claims_refused :
      (claims : Claims) (w : World C)
      → claims.token_type ≡ refresh
      → user_of_claims redis crypto (some claims) w ≡ (err (http_error 401), w)
  unfolding user_of_claims
  claims_refused claims w e = rw e refl

  access_accepted :
      (user_id device_id role now now' : ℕ) (u : User) (v : World C)
      → IsSigning crypto
      → now' < now + access_ttl
      → user_id == 0 ≡ false
      → find user_key user_id v.db.users ≡ some u
      → is_active_status u.user_status ≡ true
      → get_current_user redis crypto
          (some (create_access_token crypto user_id device_id role now))
          now'
          v
        ≡ (ok u, v)
  unfolding create_access_token get_current_user
  access_accepted user_id device_id role now now' u v signs soon n found live =
      ap (λ o. user_of_claims redis crypto o v) (signs _ now' soon)
      ∙ claims_accepted _ v u refl n found live

  refresh_refused :
      (user_id device_id family now now' : ℕ) (v : World C)
      → IsSigning crypto
      → now' < now + refresh_ttl
      → get_current_user redis crypto
          (some (create_refresh_token crypto user_id device_id family now))
          now'
          v
        ≡ (err (http_error 401), v)
  unfolding create_refresh_token get_current_user
  refresh_refused user_id device_id family now now' v signs soon =
      ap (λ o. user_of_claims redis crypto o v) (signs _ now' soon) ∙ claims_refused _ v refl

  -- The two tokens of a login, each while it lasts and in any later state in which the user is active:
  -- the access token lets the user in and does not refresh; the refresh token does not let the user
  -- in, and returns new tokens for the user, any number of times. Nothing of this changes the state.
  pub verify_login-refresh_tokens :
      (user_id otp family now family' now' now'' : ℕ) (pair : TokenPair T) (u : User)
      (w v : World C)
      → IsSigning crypto
      → (verify_login redis crypto user_id otp family now w).0 ≡ ok pair
      → now' < now + refresh_ttl
      → now'' < now + access_ttl
      → user_id == 0 ≡ false
      → find user_key user_id v.db.users ≡ some u
      → is_active_status u.user_status ≡ true
      → (get_current_user redis crypto (some pair.access_token) now'' v ≡ (ok u, v))
        × (refresh_tokens redis crypto pair.access_token family' now'' v
            ≡ (err authentication_error, v))
        × (get_current_user redis crypto (some pair.refresh_token) now' v
            ≡ (err (http_error 401), v))
        × ((pair' : TokenPair T) × (refresh_tokens redis crypto pair.refresh_token family' now' v
              ≡ (ok pair', v))
            × IsIssued crypto user_id family' now' pair')
  verify_login-refresh_tokens user_id otp family now family' now' now'' pair u w v signs e soon
        sooner n found live =
      let issued = verify_login-IsIssued user_id otp family now pair w e in
      (
        rw issued.opens (
            access_accepted user_id issued.device_id issued.role now now'' u v signs sooner n found
              live),
        rw issued.opens
            (access_refused user_id issued.device_id issued.role now family' now'' v signs sooner),
        rw issued.renews (refresh_refused user_id issued.device_id family now now' v signs soon),
        rw issued.renews (
            refresh_created user_id issued.device_id family now family' now' u v signs soon found
              live),
      )
