-- ===== src/Guards/Tests.antt =====
-- Three requests against a limit of two.
use offimesh.Prelude.{ℕ, suc, ◌≡◌, refl, some, [], ◌∷◌}
use offimesh.Guards.{Counters, RateKey, rate_key, api, no_header, entries, HttpRequest, RateLimit}
use offimesh.Guards.Limits.{IsCounting, count_passed, by_header, by_peer, IsFrom, rate_limit-passes}

-- One counter for all keys.
abbrev counter : Counters ℕ
counter = record { incr = λ _ n. (suc n, suc n); expire = λ _ _ n. n }

abbrev counting : (key : RateKey) → IsCounting counter key
counting key = record {
  value = λ n. n;
  answers = λ n. refl;
  counts = λ n. refl;
  keeps = λ w n. refl;
}

abbrev two_a_minute : RateLimit
two_a_minute = record { requests_per_minute = 2; window_seconds = 60 }

-- The peer is a proxy.
abbrev request : HttpRequest
request = record { path = api 3; client_host = some 80; forwarded = entries 44 (80 ∷ []) }

request-IsFrom : IsFrom 44 3 request
request-IsFrom = record { route = refl; address = by_header }

-- The same client without a proxy.
abbrev direct : HttpRequest
direct = record { path = api 3; client_host = some 44; forwarded = no_header }

direct-IsFrom : IsFrom 44 3 direct
direct-IsFrom = record { route = refl; address = by_peer }

rate_limit-passes_example :
    count_passed counter two_a_minute (request ∷ direct ∷ request ∷ []) 0 ≡ 2
rate_limit-passes_example =
    rate_limit-passes counter two_a_minute 44 3 (counting (rate_key 44 3))
      (request ∷ direct ∷ request ∷ []) 0 (request-IsFrom, (direct-IsFrom, (request-IsFrom, tt)))
      refl
