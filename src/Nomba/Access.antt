-- ===== src/Nomba/Access.antt =====
-- app/integrations/nomba/auth.py with the token cache of app/core/redis.py, and the headers of a
-- request in app/integrations/nomba/base_client.py. The commands of Redis on the one key and the
-- answer of the token endpoint are arguments.
pub mod Expiry
pub mod Reuse
mod Tests
use offimesh.Prelude.{
  ℕ, suc, ℤ, pos, negsuc, ◌-ℤ◌, min_ℤ, max_ℤ, Bool, true, false, not, Option, none, some, List, ◌∷◌,
  ◌==◌, if◌then◌else◌,
}
use offimesh.Exceptions.{
  Action, pure, raise, gets, modify, ◌>>=◌, ◌>>◌, nomba, nomba_auth_error, value_error, redis_error,
}
use offimesh.Nomba.{RetryConfig, Exchange, Client, Response, request}

-- GET, SETEX, SET and DEL of "nomba:access_token" on a server in state `C`.
pub record TokenCache (C : Type 0) : Type 0 where
  pub get : C → Option ℕ
  pub setex : ℕ → ℕ → C → C
  pub set : ℕ → C → C
  pub delete : C → C

-- How the request for a token ends: a token with the seconds to its `expiresAt`, if that is there
-- and can be read; another status; a body that is no answer; or an exception of httpx.
pub data AuthAnswer : Type 0 where
  issued : ℕ → Option ℤ → AuthAnswer
  refused : ℕ → AuthAnswer
  unreadable : AuthAnswer
  timeout_exception connect_error http_error : AuthAnswer

-- The client, the cache, the requests for a token and the tokens that requests went out with.
pub record Site (C : Type 0) : Type 0 where
  pub client : Client
  pub cache : C
  pub fetches : ℕ
  pub bearers : List ℕ

abbrev pub on_client : {C A : Type 0} → Action Client A → Action (Site C) A
on_client m s = let (r, client) = m s.client in (r, record s { client = client })

unfoldable pub expires_in : Option ℤ → ℤ
expires_in none = pos 3600
expires_in (some remaining) = max_ℤ remaining (pos 60)

module _ {C : Type 0} (redis : TokenCache C) where
  -- A time to live of 0 is false and sets the key for good; Redis refuses a negative one.
  unfoldable pub cache_set : ℕ → ℤ → Action (Site C) (Unit {0})
  cache_set token (negsuc _) = raise redis_error
  cache_set token (pos ttl) = modify (λ s. record s {
    cache = if ttl == 0 then redis.set token s.cache else redis.setex ttl token s.cache;
  })

  unfoldable pub cache_nomba_token : ℕ → ℤ → Action (Site C) (Unit {0})
  cache_nomba_token token expires = cache_set token (min_ℤ (expires -ℤ pos 300) (pos 3300))

  unfoldable pub receive : AuthAnswer → Action (Site C) ℕ
  receive (issued token expiry) = cache_nomba_token token (expires_in expiry) >> pure token
  receive (refused status) = raise (nomba nomba_auth_error)
  receive unreadable = raise value_error
  receive timeout_exception = raise (nomba nomba_auth_error)
  receive connect_error = raise (nomba nomba_auth_error)
  receive http_error = raise (nomba nomba_auth_error)

  unfoldable pub fetch_new_token : AuthAnswer → Action (Site C) ℕ
  fetch_new_token answer = do modify (λ s. record s { fetches = suc s.fetches }); receive answer

  unfoldable pub get_access_token : AuthAnswer → Action (Site C) ℕ
  get_access_token answer s = elim (redis.get s.cache) [
    | none ↦ fetch_new_token answer s
    | some token ↦ if token == 0 then fetch_new_token answer s else pure token s
  ]

  unfoldable pub refresh_token : AuthAnswer → Action (Site C) ℕ
  refresh_token answer = do
    modify (λ s. record s { cache = redis.delete s.cache })
    fetch_new_token answer

  -- `_request`: the headers are made once, before the loop.
  unfoldable pub authorised_request :
      RetryConfig → Bool → AuthAnswer → (ℕ → Exchange) → Action (Site C) Response
  authorised_request config is_idempotent answer exchanges = do
    token ← get_access_token answer
    modify (λ s. record s { bearers = token ∷ s.bearers })
    on_client (request config is_idempotent exchanges)
