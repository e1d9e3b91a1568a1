-- ===== src/Nomba/Access/Reuse.antt =====
-- A token that the bank no longer accepts.
use offimesh.Prelude.{
  ℕ, zero, suc, ◌≡◌, ◌≢◌, ap, ◌∙◌, refl, Bool, some, List, [], ◌∷◌, length, arith, ◌==◌, false,
}
use offimesh.Exceptions.{ok}
use offimesh.Nomba.{RetryConfig, Exchange}
use offimesh.Nomba.Access.{TokenCache, Site, AuthAnswer, get_access_token, authorised_request}

-- A request as the client sees it: whether it may be repeated, what the token endpoint would
-- answer, and how its attempts end.
pub record Call : Type 0 where
  pub is_idempotent : Bool
  pub endpoint : AuthAnswer
  pub exchanges : ℕ → Exchange

abbrev pub repeated : ℕ → ℕ → List ℕ → List ℕ
repeated zero x xs = xs
repeated (suc n) x xs = repeated n x (x ∷ xs)

module _ {C : Type 0} (redis : TokenCache C) (config : RetryConfig) where
  unfoldable pub run_calls : List Call → Site C → Site C
  run_calls [] s = s
  run_calls (call ∷ calls) s =
      run_calls calls
        (authorised_request redis config call.is_idempotent call.endpoint call.exchanges s).1

  pub cached :
      (endpoint : AuthAnswer) (token : ℕ) (s : Site C)
      → redis.get s.cache ≡ some token
      → token ≢ 0
      → get_access_token redis endpoint s ≡ (ok token, s)
  unfolding get_access_token
  cached endpoint token s e h =
      let present : (token == 0) ≡ false = ground arith in
      rw (e, get_access_token) (rw present refl)

  one_call :
      (call : Call) (token : ℕ) (s : Site C)
      → redis.get s.cache ≡ some token
      → token ≢ 0
      → let s' =
          (authorised_request redis config call.is_idempotent call.endpoint call.exchanges s).1 in
        (s'.cache ≡ s.cache) × (s'.fetches ≡ s.fetches) × (s'.bearers ≡ token ∷ s.bearers)
  unfolding authorised_request
  one_call call token s e h = rw (cached call.endpoint token s e h) (refl, refl, refl)

  -- As long as the cache keeps a token, every request goes out with it and no other is asked for,
  -- whatever the bank answers to the requests: a token that it refuses with 401 stays in use.
  pub run_calls-reuse :
      (calls : List Call) (token : ℕ) (s : Site C)
      → redis.get s.cache ≡ some token
      → token ≢ 0
      → let s' = run_calls calls s in
        (s'.cache ≡ s.cache)
        × (s'.fetches ≡ s.fetches)
        × (s'.bearers ≡ repeated (length calls) token s.bearers)
  unfolding run_calls
  run_calls-reuse [] token s e h = (refl, refl, refl)
  run_calls-reuse (call ∷ calls) token s e h =
      let s' =
        (authorised_request redis config call.is_idempotent call.endpoint call.exchanges s).1 in
      let (same, quiet, bearer) = one_call call token s e h in
      let later = run_calls-reuse calls token s' (ap redis.get same ∙ e) h in
      (later.0 ∙ same, later.1 ∙ quiet, later.2 ∙ ap (repeated (length calls) token) bearer)
