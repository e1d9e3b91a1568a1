-- ===== src/Nomba/Steps.antt =====
-- What one attempt of a call sends and sleeps.
use native.Mathlib.Nat.{mul-le-mul_left, mul-le-mul_right, le_trans}
use offimesh.Prelude.{
  ℕ, suc, ◌+◌, ◌*◌, ◌^◌, ◌≤◌, ◌≡◌, refl, Bool, false, ltb, if◌then◌else◌, arith, Bool-cases, inl,
  inr,
}
use offimesh.Exceptions.{
  Action, err, nomba, NombaError, nomba_timeout, nomba_service_unavailable, nomba_http_error,
}
use offimesh.Nomba.Breaker.{CircuitBreaker, can_execute, record_failure}
use offimesh.Nomba.{
  RetryConfig, compute_delay, Response, Answer, responded, timeout_exception, connect_error,
  http_error, Exchange, Client, handle_response, retry, conclude, request_from, on_breaker,
}

-- At most `n` more requests sent and at most `d` more time slept.
pub record Within (n d : ℕ) (c c' : Client) : Type 0 where
  pub at_least : c.sent ≤ c'.sent
  pub at_most : c'.sent ≤ c.sent + n
  pub sleeps : c'.slept ≤ c.slept + d

-- Only the two counts matter.
same_counts :
    (c c1 c' : Client) {n d : ℕ}
    → c1.sent ≡ c.sent
    → c1.slept ≡ c.slept
    → Within n d c1 c'
    → Within n d c c'
same_counts c c1 c' e f w = record {
  at_least = omega (arith, w);
  at_most = omega (arith, w);
  sleeps = omega (arith, w);
}

pub failed : (c : Client) (b : CircuitBreaker) → Within 0 0 c (record c { breaker = b })
failed c b = record { at_least = omega arith; at_most = omega arith; sleeps = omega arith }

sent_one :
    (c c' : Client) (n d : ℕ) {b : CircuitBreaker}
    → Within n d (record c { sent = suc c.sent; breaker = b }) c'
    → Within (suc n) d c c'
sent_one c c' n d w = record {
  at_least = omega (arith, w);
  at_most = omega (arith, w);
  sleeps = omega (arith, w);
}

pub slower : {n : ℕ} {c c' : Client} (d e : ℕ) → d ≤ e → Within n d c c' → Within n e c c'
slower d e k w = record { at_least = w.at_least; at_most = w.at_most; sleeps = omega (arith, w) }

handle_response-Within :
    (r : Response) (now n d : ℕ) (c : Client) → Within n d c (handle_response r now c).1
unfolding handle_response
handle_response-Within r now n d c = ground arith

mul_mono : (a b c d : ℕ) → a ≤ b → c ≤ d → a * c ≤ b * d
mul_mono a b c d h k = le_trans (mul-le-mul_right c h) (mul-le-mul_left b k)

-- A delay is the capped one times the jitter factor.
pub compute_delay-le :
    (config : RetryConfig) (attempt jitter : ℕ)
    → jitter ≤ 1000 + config.jitter_factor
    → compute_delay config attempt jitter ≤ config.max_delay * (1000 + config.jitter_factor)
unfolding compute_delay
compute_delay-le config attempt jitter h = ground (
  arith,
  mul_mono
      (if ltb config.max_delay (config.base_delay * 2 ^ attempt)
        then config.max_delay
        else config.base_delay * 2 ^ attempt)
      config.max_delay jitter (1000 + config.jitter_factor),
)

retry-Within :
    (config : RetryConfig) (idem : Bool) (attempt jitter n d D : ℕ) (e : NombaError)
    (again : Action Client Response) (c : Client)
    → compute_delay config attempt jitter ≤ D
    → ((c : Client) → Within n d c (again c).1)
    → Within n (D + d) c (retry config idem attempt jitter e again c).1
unfolding retry
retry-Within config idem attempt jitter n d D e again c k h =
    ground (arith, h (record c { slept = c.slept + compute_delay config attempt jitter }))

-- A request that must not be repeated is not tried a third time.
retry_last :
    (config : RetryConfig) (attempt jitter : ℕ) (e : NombaError) (again : Action Client Response)
    (c : Client)
    → retry config false (suc attempt) jitter e again c ≡ (err (nomba e), c)
unfolding retry
retry_last config attempt jitter e again c = ground arith

pub conclude-Within :
    (config : RetryConfig) (idem : Bool) (attempt n d D : ℕ) (x : Exchange) (a : Answer)
    (again : Action Client Response) (c : Client)
    → compute_delay config attempt x.jitter ≤ D
    → ((c : Client) → Within n d c (again c).1)
    → Within n (D + d) c (conclude config idem attempt x a again c).1
unfolding conclude
conclude-Within config idem attempt n d D x (responded r) again c k h =
    handle_response-Within r x.answered_at n (D + d) c
conclude-Within config idem attempt n d D x timeout_exception again c k h =
    same_counts c _ _ refl refl (
      retry-Within config idem attempt x.jitter n d D nomba_timeout again
        (on_breaker (record_failure x.answered_at) c) k h)
conclude-Within config idem attempt n d D x connect_error again c k h =
    same_counts c _ _ refl refl (
      retry-Within config idem attempt x.jitter n d D nomba_service_unavailable again
        (on_breaker (record_failure x.answered_at) c) k h)
conclude-Within config idem attempt n d D x http_error again c k h = same_counts c _ _ refl refl (
    retry-Within config idem attempt x.jitter n d D nomba_http_error again
      (on_breaker (record_failure x.answered_at) c) k h)

pub conclude_last :
    (config : RetryConfig) (attempt : ℕ) (x : Exchange) (a : Answer)
    (again : Action Client Response) (c : Client)
    → Within 0 0 c (conclude config false (suc attempt) x a again c).1
unfolding conclude
conclude_last config attempt x (responded r) again c = handle_response-Within r x.answered_at 0 0 c
conclude_last config attempt x timeout_exception again c =
    rw
      (retry_last config attempt x.jitter nomba_timeout again
        (on_breaker (record_failure x.answered_at) c))
      (failed c _)
conclude_last config attempt x connect_error again c =
    rw
      (retry_last config attempt x.jitter nomba_service_unavailable again
        (on_breaker (record_failure x.answered_at) c))
      (failed c _)
conclude_last config attempt x http_error again c =
    rw
      (retry_last config attempt x.jitter nomba_http_error again
        (on_breaker (record_failure x.answered_at) c))
      (failed c _)

-- A round sends one request more than what follows its answer.
pub round-Within :
    (config : RetryConfig) (idem : Bool) (xs : ℕ → Exchange) (attempt rounds n d : ℕ) (c : Client)
    → ((again : Action Client Response)
        → again ≡ request_from config idem xs (suc attempt) rounds
        → (c : Client)
        → Within n d c (conclude config idem attempt (xs attempt) (xs attempt).answer again c).1)
    → Within (suc n) d c (request_from config idem xs attempt (suc rounds) c).1
unfolding request_from
round-Within config idem xs attempt rounds n d c h =
    elim (Bool-cases (can_execute (xs attempt).asked_at c.breaker).0) [
      | inr refused ↦
          rw refused
            (record { at_least = omega arith; at_most = omega arith; sleeps = omega arith })
      | inl allowed ↦ rw allowed (
          sent_one c _ n d (
            h _ refl (record c {
              sent = suc c.sent;
              breaker = (can_execute (xs attempt).asked_at c.breaker).1;
            })))
    ]
