-- ===== src/Nomba/Access/Tests.antt =====
-- A cache of one cell, and a bank that refuses the token.
use offimesh.Prelude.{
  ℕ, ◌+◌, ◌≤◌, ◌<◌, ◌≡◌, ◌⊎◌, refl, true, Option, none, some, [], ◌∷◌, pos, arith,
}
use offimesh.Exceptions.{ok, err, redis_error}
use offimesh.Nomba.{default_retries, responded, Exchange}
use offimesh.Nomba.Breaker.{new_breaker}
use offimesh.Nomba.Access.{TokenCache, Site, issued, unreadable, fetch_new_token}
use offimesh.Nomba.Access.Expiry.{fetch_new_token-margin}
use offimesh.Nomba.Access.Reuse.{Call, run_calls, run_calls-reuse}

abbrev cell : TokenCache (Option ℕ)
cell = record {
  get = λ c. c;
  setex = λ _ token _. some token;
  set = λ token _. some token;
  delete = λ _. none;
}

abbrev site : Site (Option ℕ)
site = record {
  client = record { breaker = new_breaker; sent = 0; slept = 0 };
  cache = some 9;
  fetches = 1;
  bearers = [];
}

abbrev unauthorised : ℕ → Exchange
unauthorised _ = record {
  asked_at = 10;
  answered_at = 20;
  answer = responded (record { status_code = 401; retry_after = none; message = 0 });
  jitter = 1000;
}

abbrev call : Call
call = record { is_idempotent = true; endpoint = unreadable; exchanges = unauthorised }

run_calls-reuse_example :
    let after = run_calls cell default_retries (call ∷ call ∷ []) site in
    (after.cache ≡ some 9) × (after.fetches ≡ 1) × (after.bearers ≡ 9 ∷ 9 ∷ [])
run_calls-reuse_example =
    run_calls-reuse cell default_retries (call ∷ call ∷ []) 9 site refl (omega arith)

fetch_new_token-margin_example :
    let run = fetch_new_token cell (issued 8 (some (pos 1800))) site in
    let asked = record site { fetches = 2 } in
    ((ttl : ℕ) × (0 < ttl)
      × (ttl ≤ 3300)
      × (ttl + 300 ≤ 1800)
      × (run ≡ (ok 8, record asked { cache = some 8 })))
    ⊎ (◌≡◌ {A = ℕ} 1800 300 × (run ≡ (ok 8, record asked { cache = some 8 })))
    ⊎ ((1800 < 300) × (run ≡ (err redis_error, asked)))
fetch_new_token-margin_example = fetch_new_token-margin cell 8 1800 site
