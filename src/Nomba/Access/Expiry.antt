-- ===== src/Nomba/Access/Expiry.antt =====
-- How long an issued token is kept.
use offimesh.Prelude.{
  ℕ, ◌+◌, ◌-◌, ◌≤◌, ◌<◌, ℤ, pos, negsuc, ◌-ℤ◌, min_ℤ, ◌≡◌, ◌⊎◌, refl, some, suc, ltb, if◌then◌else◌,
  arith, inl, inr, Bool-cases, ◌==◌, false,
}
use offimesh.Exceptions.{ok, err, redis_error}
use offimesh.Nomba.Access.{
  TokenCache, Site, issued, expires_in, cache_set, cache_nomba_token, receive, fetch_new_token,
}

abbrev safe_ttl : ℕ → ℤ
safe_ttl n = min_ℤ (expires_in (some (pos n)) -ℤ pos 300) (pos 3300)

abbrev lesser : ℕ → ℕ → ℕ
lesser a b = if ltb b a then b else a

abbrev larger : ℕ → ℕ → ℕ
larger a b = if ltb a b then b else a

longer : (n : ℕ) → 300 < n → safe_ttl n ≡ pos (lesser (n - 300) 3300)
unfolding expires_in ◌-ℤ◌
longer n h = ground arith

shorter : (n : ℕ) → n < 300 → safe_ttl n ≡ negsuc (299 - larger 60 n)
unfolding expires_in ◌-ℤ◌
shorter n h = ground arith

exact : safe_ttl 300 ≡ pos 0
unfolding expires_in ◌-ℤ◌
exact = refl

module _ {C : Type 0} (redis : TokenCache C) where
  -- The run for a token that is issued for `n` more seconds.
  stored :
      (token n ttl : ℕ) (s : Site C)
      → safe_ttl n ≡ pos ttl
      → fetch_new_token redis (issued token (some (pos n))) s ≡ (
        ok token,
        record s {
          fetches = suc s.fetches;
          cache = if ttl == 0 then redis.set token s.cache else redis.setex ttl token s.cache;
        },
      )
  unfolding fetch_new_token receive cache_nomba_token cache_set
  stored token n ttl s e = rw e refl

  unstored :
      (token n k : ℕ) (s : Site C)
      → safe_ttl n ≡ negsuc k
      → fetch_new_token redis (issued token (some (pos n))) s
        ≡ (err redis_error, record s { fetches = suc s.fetches })
  unfolding fetch_new_token receive cache_nomba_token cache_set
  unstored token n k s e = rw e refl

  -- What happens to a token that is issued for `n` more seconds. Above 300 it is kept for at most 55
  -- minutes and is gone at least five minutes before it expires; at exactly 300 it is kept without an
  -- end; below, Redis refuses the time to live, and the call raises though it has a good token.
  pub fetch_new_token-margin :
      (token n : ℕ) (s : Site C)
      → let run = fetch_new_token redis (issued token (some (pos n))) s in
        let asked = record s { fetches = suc s.fetches } in
        ((ttl : ℕ) × (0 < ttl)
          × (ttl ≤ 3300)
          × (ttl + 300 ≤ n)
          × (run ≡ (ok token, record asked { cache = redis.setex ttl token s.cache })))
        ⊎ ((n ≡ 300) × (run ≡ (ok token, record asked { cache = redis.set token s.cache })))
        ⊎ ((n < 300) × (run ≡ (err redis_error, asked)))
  fetch_new_token-margin token n s = elim (Bool-cases (ltb 300 n)) [
    | inl above ↦
        let ttl = lesser (n - 300) 3300 in
        let big : 300 < n = ground arith in
        let positive : (ttl == 0) ≡ false = ground arith in
        inl (
          ttl,
          ground arith,
          ground arith,
          ground arith,
          rw (stored token n ttl s (longer n big)) (rw positive refl),
        )
    | inr most ↦ elim (Bool-cases (n == 300)) [
      | inl same ↦
          let at_bound : n ≡ 300 = ground arith in
          inr (inl (at_bound, rw at_bound (stored token 300 0 s exact)))
      | inr below ↦
          let small : n < 300 = ground arith in
          inr (inr (small, unstored token n (299 - larger 60 n) s (shorter n small)))
    ]
  ]
