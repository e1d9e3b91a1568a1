-- ===== src/Nomba/Rounds.antt =====
-- The rounds that a call counts are enough: its own test ends it before they run out.
use offimesh.Prelude.{ℕ, zero, suc, ◌+◌, ◌≤◌, ◌≡◌, refl, Bool, arith, Bool-cases, inl, inr, ◌⊎◌}
use offimesh.Exceptions.{
  Action, NombaError, nomba_timeout, nomba_service_unavailable, nomba_http_error,
}
use offimesh.Nomba.Breaker.{can_execute}
use offimesh.Nomba.{
  RetryConfig, compute_delay, Response, Answer, responded, timeout_exception, connect_error,
  http_error, Exchange, Client, retry, conclude, request_from,
}

-- Two continuations that agree, or the last attempt, which does not go on.
record Agree (config : RetryConfig) (attempt : ℕ) (again again' : Action Client Response)
    : Type 0 where
  same : (c : Client) → (again c ≡ again' c) ⊎ (config.max_retries ≤ attempt)

retry-Agree :
    (config : RetryConfig) (idem : Bool) (attempt jitter : ℕ) (e : NombaError)
    (again again' : Action Client Response) (c : Client)
    → Agree config attempt again again'
    → retry config idem attempt jitter e again c ≡ retry config idem attempt jitter e again' c
unfolding retry
retry-Agree config idem attempt jitter e again again' c h =
    elim (h.same (record c { slept = c.slept + compute_delay config attempt jitter })) [
      | inl same ↦ ground arith
      | inr last ↦ ground arith
    ]

conclude-Agree :
    (config : RetryConfig) (idem : Bool) (attempt : ℕ) (x : Exchange) (a : Answer)
    (again again' : Action Client Response) (c : Client)
    → Agree config attempt again again'
    → conclude config idem attempt x a again c ≡ conclude config idem attempt x a again' c
unfolding conclude
conclude-Agree config idem attempt x (responded r) again again' c h = refl
conclude-Agree config idem attempt x timeout_exception again again' c h =
    retry-Agree config idem attempt x.jitter nomba_timeout again again' _ h
conclude-Agree config idem attempt x connect_error again again' c h =
    retry-Agree config idem attempt x.jitter nomba_service_unavailable again again' _ h
conclude-Agree config idem attempt x http_error again again' c h =
    retry-Agree config idem attempt x.jitter nomba_http_error again again' _ h

round-Agree :
    (config : RetryConfig) (idem : Bool) (xs : ℕ → Exchange) (attempt m n : ℕ) (c : Client)
    → Agree config attempt
        (request_from config idem xs (suc attempt) m)
        (request_from config idem xs (suc attempt) n)
    → request_from config idem xs attempt (suc m) c ≡ request_from config idem xs attempt (suc n) c
unfolding request_from
round-Agree config idem xs attempt m n c h =
    elim (Bool-cases (can_execute (xs attempt).asked_at c.breaker).0) [
      | inr refused ↦ rw refused refl
      | inl allowed ↦
          rw allowed (conclude-Agree config idem attempt (xs attempt) (xs attempt).answer _ _ _ h)
    ]

pub request_from-enough :
    (config : RetryConfig) (idem : Bool) (xs : ℕ → Exchange) (attempt m n : ℕ) (c : Client)
    → config.max_retries ≤ attempt + m
    → config.max_retries ≤ attempt + n
    → request_from config idem xs attempt (suc m) c ≡ request_from config idem xs attempt (suc n) c
request_from-enough config idem xs attempt zero n c h k =
    round-Agree config idem xs attempt zero n c (record { same = λ c. inr (omega (arith, h)) })
request_from-enough config idem xs attempt (suc m) zero c h k =
    round-Agree config idem xs attempt (suc m) zero c
      (record { same = λ c. inr (omega (arith, k)) })
request_from-enough config idem xs attempt (suc m) (suc n) c h k =
    round-Agree config idem xs attempt (suc m) (suc n) c (record {
      same = λ c. inl (
          request_from-enough config idem xs (suc attempt) m n c (omega (arith, h))
            (omega (arith, k)));
    })
