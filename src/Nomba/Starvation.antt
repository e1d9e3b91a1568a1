-- ===== src/Nomba/Starvation.antt =====
-- A half-open breaker whose test requests are used up. Only a 2xx answer closes a breaker and only
-- a failure trips it again, so that answers of neither kind leave it half-open.
use offimesh.Prelude.{
  ℕ, suc, ◌≤◌, ◌<◌, ◌≡◌, refl, ap, ◌∙◌, subst, sym, Bool, true, false, not, ◌&&◌, ltb, leb, arith,
  List, [], ◌∷◌, map,
}
use offimesh.Exceptions.{Result, err, nomba, nomba_service_unavailable}
use offimesh.Nomba.Breaker.{CircuitBreaker, tripped, half_open, has_cooled, decide, can_execute}
use offimesh.Nomba.{
  RetryConfig, Response, responded, Exchange, Client, handle_response, conclude, request_from,
  request,
}

-- One call of `_request`.
pub record Call : Type 0 where
  pub is_idempotent : Bool
  pub exchanges : ℕ → Exchange

-- Calls of one client, one after the other: their results, and the client they leave.
unfoldable pub run_calls : RetryConfig → List Call → Client → List (Result Response) × Client
run_calls config [] c = ([], c)
run_calls config (call ∷ calls) c =
    let (result, c1) = request config call.is_idempotent call.exchanges c in
    let (results, c2) = run_calls config calls c1 in (result ∷ results, c2)

-- The breaker is half-open and has let its three test requests through.
abbrev pub IsExhausted : CircuitBreaker → Type 0
IsExhausted b = (b.state ≡ half_open) × (3 ≤ b.half_open_attempts)

can_execute-exhausted :
    (now : ℕ) (b : CircuitBreaker) → IsExhausted b → can_execute now b ≡ (false, b)
unfolding can_execute
can_execute-exhausted now b (h, k) = ap (λ s. decide s now b) h ∙ ground (arith, k)

request_refused :
    (config : RetryConfig) (idem : Bool) (xs : ℕ → Exchange) (c : Client)
    → can_execute (xs 0).asked_at c.breaker ≡ (false, c.breaker)
    → request config idem xs c ≡ (err (nomba nomba_service_unavailable), c)
unfolding request request_from
request_refused config idem xs c e = rw e refl

run_calls-exhausted :
    (config : RetryConfig) (calls : List Call) (c : Client)
    → IsExhausted c.breaker
    → run_calls config calls c ≡ (map (λ _. err (nomba nomba_service_unavailable)) calls, c)
unfolding run_calls
run_calls-exhausted config [] c h = refl
run_calls-exhausted config (call ∷ calls) c h =
    rw
      (request_refused config call.is_idempotent call.exchanges c
        (can_execute-exhausted (call.exchanges 0).asked_at c.breaker h))
      (rw (run_calls-exhausted config calls c h) refl)

-- The status codes that are neither a success nor a failure of the server.
abbrev pub is_rejection : ℕ → Bool
is_rejection status =
    not (leb 200 status && ltb status 300) && not (leb 500 status && ltb status 600)

handle_response-rejection :
    (r : Response) (now : ℕ) (c : Client)
    → is_rejection r.status_code ≡ true
    → (handle_response r now c).1 ≡ c
unfolding handle_response
handle_response-rejection r now c h = ground arith

-- The first attempt of the call is answered by a rejection.
abbrev pub IsRejected : (ℕ → Exchange) → Type 0
IsRejected xs = (r : Response) × ((xs 0).answer ≡ responded r) × (is_rejection r.status_code ≡ true)

request-rejected :
    (config : RetryConfig) (idem : Bool) (xs : ℕ → Exchange) (b' : CircuitBreaker) (c : Client)
    → IsRejected xs
    → can_execute (xs 0).asked_at c.breaker ≡ (true, b')
    → (request config idem xs c).1.breaker ≡ b'
unfolding request request_from conclude
request-rejected config idem xs b' c (r, e, h) allowed = rw allowed (
    rw e (
      ap (λ c. c.breaker)
        (handle_response-rejection r (xs 0).answered_at
          (record c { sent = suc c.sent; breaker = b' }) h)))

can_execute-cooled :
    (now : ℕ) (b : CircuitBreaker)
    → b.state ≡ tripped
    → has_cooled b.last_failure_time b.reset_timeout now ≡ true
    → can_execute now b ≡ (true, record b { state = half_open; half_open_attempts = 0 })
unfolding can_execute
can_execute-cooled now b e h = ap (λ s. decide s now b) e ∙ ground arith

can_execute-half_open :
    (now n : ℕ) (b : CircuitBreaker)
    → (b.state ≡ half_open) × (b.half_open_attempts ≡ n)
    → n < 3
    → can_execute now b ≡ (true, record b { half_open_attempts = suc n })
unfolding can_execute
can_execute-half_open now n b (e, f) h = ap (λ s. decide s now b) e ∙ rw f (ground (arith, h))

IsHalfOpen : ℕ → CircuitBreaker → Type 0
IsHalfOpen n b = (b.state ≡ half_open) × (b.half_open_attempts ≡ n)

-- A test request that is rejected uses up one of the three.
rejected_test :
    (config : RetryConfig) (call : Call) (c : Client) (n : ℕ)
    → n < 3
    → IsRejected call.exchanges
    → IsHalfOpen n c.breaker
    → IsHalfOpen (suc n) (request config call.is_idempotent call.exchanges c).1.breaker
unfolding IsHalfOpen
rejected_test config call c n k h e =
    subst (IsHalfOpen (suc n))
      (sym (
        request-rejected config call.is_idempotent call.exchanges _ c h
          (can_execute-half_open (call.exchanges 0).asked_at n c.breaker e k)))
      (e.0, refl)

lt_three : (n : ℕ) → ltb n 3 ≡ true → n < 3
lt_three n h = ground arith

first_rejected :
    (config : RetryConfig) (call : Call) (c : Client)
    → c.breaker.state ≡ tripped
    → has_cooled c.breaker.last_failure_time c.breaker.reset_timeout (call.exchanges 0).asked_at
      ≡ true
    → IsRejected call.exchanges
    → IsHalfOpen 0 (request config call.is_idempotent call.exchanges c).1.breaker
unfolding IsHalfOpen
first_rejected config call c e k h =
    subst (IsHalfOpen 0)
      (sym (
        request-rejected config call.is_idempotent call.exchanges _ c h
          (can_execute-cooled (call.exchanges 0).asked_at c.breaker e k)))
      (refl, refl)

-- Once the reset timeout has passed, a tripped breaker lets a call through. If its answer and those
-- of the next three calls are each neither 2xx nor 5xx (a refused token, a bad body, an unknown id),
-- then whatever calls follow, however much later and whatever the bank would answer, each of them
-- raises that the service is unavailable, and the client stays as it is: nothing is sent.
pub four_rejections-starve :
    (config : RetryConfig) (c : Client) (call0 call1 call2 call3 : Call) (calls : List Call)
    → c.breaker.state ≡ tripped
    → has_cooled c.breaker.last_failure_time c.breaker.reset_timeout (call0.exchanges 0).asked_at
      ≡ true
    → IsRejected call0.exchanges
    → IsRejected call1.exchanges
    → IsRejected call2.exchanges
    → IsRejected call3.exchanges
    → let c' = (run_calls config (call0 ∷ call1 ∷ call2 ∷ call3 ∷ []) c).1 in
      run_calls config calls c' ≡ (map (λ _. err (nomba nomba_service_unavailable)) calls, c')
unfolding run_calls IsHalfOpen
four_rejections-starve config c call0 call1 call2 call3 calls e k h0 h1 h2 h3 =
    let half0 = first_rejected config call0 c e k h0 in
    let half1 = rejected_test config call1 _ 0 (lt_three 0 refl) h1 half0 in
    let half2 = rejected_test config call2 _ 1 (lt_three 1 refl) h2 half1 in
    let half3 = rejected_test config call3 _ 2 (lt_three 2 refl) h3 half2 in
    run_calls-exhausted config calls _ (half3.0, omega (arith, half3.1))
