-- ===== src/Guards.antt =====
-- What stands before the routes: app/middleware/rate_limit.py with `increment_rate_limit` of
-- app/core/redis.py, and app/middleware/device_blacklist_middleware.py.
pub mod Limits
mod Tests
use offimesh.Prelude.{ℕ, ◌-◌, Bool, true, false, Option, none, some, List, ◌==◌, ltb, if◌then◌else◌}
use offimesh.Exceptions.{Action, pure, raise_if, gets, ◌>>=◌, http_error}
use offimesh.Models.{Db}
use offimesh.Fraud.{is_listed}

-- INCR and EXPIRE on a server in state `C`.
pub data RateKey : Type 0 where
  rate_key : ℕ → ℕ → RateKey

pub record Counters (C : Type 0) : Type 0 where
  pub incr : RateKey → C → ℕ × C
  pub expire : RateKey → ℕ → C → C

-- The paths that are not counted, and the others.
pub data RequestPath : Type 0 where
  health webhook : RequestPath
  api : ℕ → RequestPath

-- X-Forwarded-For: missing, the empty string, or the entries between its commas, each stripped, of
-- which the first may be empty too. An address is its code, 0 for the empty string.
pub data ForwardedHeader : Type 0 where
  no_header empty_header : ForwardedHeader
  entries : ℕ → List ℕ → ForwardedHeader

-- The peer's address is missing where `request.client` is.
pub record HttpRequest : Type 0 where
  pub path : RequestPath
  pub client_host : Option ℕ
  pub forwarded : ForwardedHeader

pub record RateLimit : Type 0 where
  pub requests_per_minute : ℕ
  pub window_seconds : ℕ

-- 1 stands for "unknown".
abbrev pub peer : Option ℕ → ℕ
peer none = 1
peer (some host) = host

abbrev pub forwarded_or : ForwardedHeader → ℕ → ℕ
forwarded_or no_header ip = ip
forwarded_or empty_header ip = ip
forwarded_or (entries first rest) ip = first

-- A header that is not empty is used, even if its first entry is.
abbrev pub client_ip : HttpRequest → ℕ
client_ip r = forwarded_or r.forwarded (peer r.client_host)

-- The request goes on to its route, with the requests that remain if it is counted; or it is
-- answered 429.
pub data Passage : Type 0 where
  uncounted : Passage
  passed : ℕ → Passage
  too_many_requests : Passage

module _ {C : Type 0} (counters : Counters C) where
  unfoldable pub increment_rate_limit : RateKey → ℕ → C → ℕ × C
  increment_rate_limit key window c =
      let (current, c') = counters.incr key c in
      (current, if current == 1 then counters.expire key window c' else c')

  unfoldable pub count_request : RateLimit → RateKey → C → Passage × C
  count_request limit key c =
      let (count, c') = increment_rate_limit key limit.window_seconds c in
      (
        if ltb limit.requests_per_minute count
            then too_many_requests
            else passed (limit.requests_per_minute - count),
        c',
      )

  unfoldable pub dispatch_on : RateLimit → RequestPath → ℕ → C → Passage × C
  dispatch_on limit health ip c = (uncounted, c)
  dispatch_on limit webhook ip c = (uncounted, c)
  dispatch_on limit (api p) ip c = count_request limit (rate_key ip p) c

  unfoldable pub dispatch : RateLimit → HttpRequest → C → Passage × C
  dispatch limit r c = dispatch_on limit r.path (client_ip r) c

-- The hash of a fingerprint is an argument.
unfoldable pub check_device_blacklist : (ℕ → ℕ) → Option ℕ → Action Db (Unit {0})
check_device_blacklist hash none = pure tt
check_device_blacklist hash (some fingerprint) =
    if fingerprint == 0
    then pure tt
    else (gets (is_listed (hash fingerprint)) >>= λ listed. raise_if listed (http_error 403))

unfoldable pub validate_device_not_blacklisted : (ℕ → ℕ) → ℕ → Action Db (Unit {0})
validate_device_not_blacklisted hash fingerprint =
    gets (is_listed (hash fingerprint)) >>= λ listed. raise_if listed (http_error 403)
