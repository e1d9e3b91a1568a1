-- ===== src/Nomba/Recovery.antt =====
-- Failures that pass before the retries of a call are used up.
use offimesh.Prelude.{
  ℕ, zero, suc, ◌+◌, ◌≤◌, ◌<◌, ◌≡◌, refl, ap, ◌∙◌, subst, sym, Bool, true, ◌&&◌, ltb, leb, arith,
  inl, inr, List, [], ◌∷◌, length, filter_by, ◌++◌, ◌⊎◌,
}
use offimesh.Exceptions.{Action, Result, ok, NombaError, nomba_service_unavailable, nomba_timeout}
use offimesh.Nomba.Breaker.{
  CircuitBreaker, closed, decide, can_execute, record_failure, record_success, recent_failures,
}
use offimesh.Nomba.{
  RetryConfig, Response, Answer, responded, timeout_exception, connect_error, Exchange, Client,
  handle_response, retry, conclude, request_from, request, on_breaker, compute_delay, is_transient,
}

-- The breaker is closed with at most `n` failures in its list.
record IsCalm (n threshold : ℕ) (b : CircuitBreaker) : Type 0 where
  closes : b.state ≡ closed
  few : length b.failures ≤ n
  same_threshold : b.failure_threshold ≡ threshold

length-filter_by-le {ℓ} :
    {A : Type ℓ} (p : A → Bool) (xs : List A) → length (filter_by p xs) ≤ length xs
length-filter_by-le p [] = omega arith
length-filter_by-le p (x ∷ xs) = ground (arith, length-filter_by-le p xs)

length-snoc {ℓ} : {A : Type ℓ} (xs : List A) (x : A) → length (xs ++ x ∷ []) ≡ suc (length xs)
length-snoc [] x = refl
length-snoc (y ∷ xs) x = ap suc (length-snoc xs x)

record_failure-IsCalm :
    (now n threshold : ℕ) (b : CircuitBreaker)
    → suc n < threshold
    → IsCalm n threshold b
    → IsCalm (suc n) threshold (record_failure now b)
unfolding record_failure
record_failure-IsCalm now n threshold b k calm =
    let recent = filter_by (λ f. ltb now (f + b.window)) b.failures in
    let few : length (recent_failures now b) ≤ suc n = omega (
      arith,
      length-snoc recent now,
      length-filter_by-le (λ f. ltb now (f + b.window)) b.failures,
      calm,
    ) in
    record {
      closes = ground (arith, calm.closes, calm.same_threshold, few, k);
      few = few;
      same_threshold = calm.same_threshold;
    }

can_execute-closed :
    (now : ℕ) (b : CircuitBreaker) → b.state ≡ closed → can_execute now b ≡ (true, b)
unfolding can_execute
can_execute-closed now b e = ap (λ s. decide s now b) e

-- The attempt ends by a timeout or a refused connection.
abbrev pub IsTransient : Answer → Type 0
IsTransient a = (a ≡ timeout_exception) ⊎ (a ≡ connect_error)

-- The client after a transient failure, when the next attempt begins.
abbrev after_failure : RetryConfig → ℕ → Exchange → Client → Client
after_failure config attempt x c = record c {
  breaker = record_failure x.answered_at c.breaker;
  sent = suc c.sent;
  slept = c.slept + compute_delay config attempt x.jitter;
}

retry_again :
    (config : RetryConfig) (attempt jitter : ℕ) (e : NombaError) (again : Action Client Response)
    (c : Client)
    → is_transient e ≡ true
    → attempt < config.max_retries
    → retry config true attempt jitter e again c
      ≡ again (record c { slept = c.slept + compute_delay config attempt jitter })
unfolding retry
retry_again config attempt jitter e again c h k = ground arith

conclude_again :
    (config : RetryConfig) (attempt : ℕ) (x : Exchange) (a : Answer)
    (again : Action Client Response) (c : Client)
    → IsTransient a
    → attempt < config.max_retries
    → conclude config true attempt x a again (record c { sent = suc c.sent })
      ≡ again (after_failure config attempt x c)
unfolding conclude
conclude_again config attempt x a again c (inl e) k =
    rw e (retry_again config attempt x.jitter nomba_timeout again _ refl k)
conclude_again config attempt x a again c (inr e) k =
    rw e (retry_again config attempt x.jitter nomba_service_unavailable again _ refl k)

request_from-again :
    (config : RetryConfig) (xs : ℕ → Exchange) (attempt rounds : ℕ) (c : Client)
    → c.breaker.state ≡ closed
    → IsTransient (xs attempt).answer
    → attempt < config.max_retries
    → request_from config true xs attempt (suc rounds) c
      ≡ request_from config true xs
          (suc attempt)
          rounds
          (after_failure config attempt (xs attempt) c)
unfolding request_from
request_from-again config xs attempt rounds c e t k =
    rw (can_execute-closed (xs attempt).asked_at c.breaker e) (
      conclude_again config attempt (xs attempt) (xs attempt).answer
        (request_from config true xs (suc attempt) rounds) c t k)

abbrev pub is_success : ℕ → Bool
is_success status = leb 200 status && ltb status 300

handle_response-success :
    (r : Response) (now : ℕ) (c : Client)
    → is_success r.status_code ≡ true
    → handle_response r now c ≡ (ok r, on_breaker record_success c)
unfolding handle_response
handle_response-success r now c h = ground arith

request_from-success :
    (config : RetryConfig) (idem : Bool) (xs : ℕ → Exchange) (attempt rounds : ℕ) (r : Response)
    (b : CircuitBreaker) (c : Client)
    → can_execute (xs attempt).asked_at c.breaker ≡ (true, b)
    → (xs attempt).answer ≡ responded r
    → is_success r.status_code ≡ true
    → request_from config idem xs attempt (suc rounds) c
      ≡ (ok r, record c { sent = suc c.sent; breaker = record_success b })
unfolding request_from conclude
request_from-success config idem xs attempt rounds r b c allowed e h = rw allowed (
    rw e (
      handle_response-success r (xs attempt).answered_at
        (record c { sent = suc c.sent; breaker = b }) h))

-- The call returned `r` after `n` requests, and left the breaker closed with no failure.
record Recovered (n : ℕ) (r : Response) (c : Client) (run : Result Response × Client) : Type 0 where
  returns : run.0 ≡ ok r
  counts : run.1.sent ≡ c.sent + n
  closes : (run.1.breaker.state ≡ closed) × (run.1.breaker.failures ≡ [])
  keeps : run.1.breaker.failure_threshold ≡ c.breaker.failure_threshold

request_from-recovers :
    (config : RetryConfig) (xs : ℕ → Exchange) (r : Response) (attempt n rounds : ℕ) (c : Client)
    → IsCalm attempt c.breaker.failure_threshold c.breaker
    → config.max_retries < c.breaker.failure_threshold
    → attempt + n ≤ config.max_retries
    → n < rounds
    → ((i : ℕ) → i < attempt + n → IsTransient (xs i).answer)
    → (xs (attempt + n)).answer ≡ responded r
    → is_success r.status_code ≡ true
    → Recovered (suc n) r c (request_from config true xs attempt rounds c)
unfolding record_success record_failure
request_from-recovers config xs r attempt n zero c calm k l m h e s = absurd (omega (arith, m))
request_from-recovers config xs r attempt zero (suc rounds) c calm k l m h e s =
    rw
      (request_from-success config true xs attempt rounds r c.breaker c
        (can_execute-closed (xs attempt).asked_at c.breaker calm.closes)
        (subst (λ i. (xs i).answer ≡ responded r) (omega arith) e) s)
      (record { returns = refl; counts = omega arith; closes = (refl, refl); keeps = refl })
request_from-recovers config xs r attempt (suc n) (suc rounds) c calm k l m h e s =
    let j : suc attempt + n ≡ attempt + suc n = omega arith in
    let rest =
      request_from-recovers config xs r (suc attempt) n rounds
        (after_failure config attempt (xs attempt) c)
        (record_failure-IsCalm (xs attempt).answered_at attempt c.breaker.failure_threshold
          c.breaker (omega (arith, k, l)) calm)
        k (omega (arith, l)) (omega (arith, m)) (λ i p. h i (omega (arith, p)))
        (subst (λ i. (xs i).answer ≡ responded r) (sym j) e) s in
    rw
      (request_from-again config xs attempt rounds c calm.closes (h attempt (omega arith))
        (omega (arith, l)))
      (record {
        returns = rest.returns;
        counts = rest.counts ∙ omega arith;
        closes = rest.closes;
        keeps = rest.keeps;
      })

-- How the attempts of a call end that gets its answer: `failed` times by a timeout or a refused
-- connection, no more than the retries allow, and then by `r`, which is 2xx.
pub record Answers (config : RetryConfig) (xs : ℕ → Exchange) (r : Response) : Type 0 where
  pub failed : ℕ
  pub few : failed ≤ config.max_retries
  pub passing : (i : ℕ) → i < failed → IsTransient (xs i).answer
  pub answered : (xs failed).answer ≡ responded r
  pub succeeds : is_success r.status_code ≡ true

-- The breaker is closed with no failure in its list, and trips only above the number of retries.
pub record IsFresh (config : RetryConfig) (c : Client) : Type 0 where
  pub closes : c.breaker.state ≡ closed
  pub empty : c.breaker.failures ≡ []
  pub patient : config.max_retries < c.breaker.failure_threshold

pub request-IsFresh :
    (config : RetryConfig) (xs : ℕ → Exchange) (r : Response) (c : Client)
    → (a : Answers config xs r) → IsFresh config c
    → let (result, c') = request config true xs c in
      (result ≡ ok r) × (c'.sent ≡ c.sent + suc a.failed) × IsFresh config c'
unfolding request
request-IsFresh config xs r c a fresh =
    let calm : IsCalm 0 c.breaker.failure_threshold c.breaker = record {
      closes = fresh.closes;
      few = rw fresh.empty (omega arith);
      same_threshold = refl;
    } in
    let few = a.few in
    let run =
      request_from-recovers config xs r 0 a.failed (suc config.max_retries) c calm fresh.patient
        (omega (arith, few)) (omega (arith, few)) (λ i p. a.passing i (omega (arith, p)))
        (subst (λ i. (xs i).answer ≡ responded r) (omega arith) a.answered) a.succeeds in
    let patient = fresh.patient in
    (
      run.returns,
      run.counts,
      record { closes = run.closes.0; empty = run.closes.1; patient = rw run.keeps patient },
    )

-- A call that may be repeated outlasts failures that pass: if the breaker is closed with no failure
-- in its list and trips only above the number of retries, the first `n` attempts, `n` at most the
-- number of retries, end by timeouts or refused connections, and the next is answered 2xx, then the
-- call returns that answer after `n + 1` requests, whatever the clock shows, and leaves the breaker
-- closed with no failure.
pub request-recovers :
    (config : RetryConfig) (xs : ℕ → Exchange) (r : Response) (n : ℕ) (c : Client)
    → c.breaker.state ≡ closed
    → c.breaker.failures ≡ []
    → config.max_retries < c.breaker.failure_threshold
    → n ≤ config.max_retries
    → ((i : ℕ) → i < n → IsTransient (xs i).answer)
    → (xs n).answer ≡ responded r
    → is_success r.status_code ≡ true
    → let (result, c') = request config true xs c in
      (result ≡ ok r)
      × (c'.sent ≡ c.sent + suc n)
      × (c'.breaker.state ≡ closed)
      × (c'.breaker.failures ≡ [])
request-recovers config xs r n c e f k l h a s =
    let answers : Answers config xs r = record {
      failed = n;
      few = l;
      passing = h;
      answered = a;
      succeeds = s;
    } in
    let (result, sent, fresh) =
      request-IsFresh config xs r c answers (record { closes = e; empty = f; patient = k }) in
    (result, sent, fresh.closes, fresh.empty)
