-- ===== src/Nomba.antt =====
-- `RetryConfig` and `BaseNombaClient` of app/integrations/nomba/base_client.py. Times are in
-- milliseconds. What the network does and the clock shows in each attempt is an argument.
pub mod Breaker
pub mod Rounds
pub mod Steps
pub mod Bounds
pub mod Recovery
pub mod Starvation
pub mod Access
pub mod Json
pub mod Resource
pub mod Listing
pub mod Transfers
pub mod Accounts
mod Tests
use offimesh.Prelude.{
  ℕ, zero, suc, ◌+◌, ◌*◌, ◌^◌, ltb, leb, Bool, true, false, not, ◌&&◌, Option, none, some, ◌==◌,
  if◌then◌else◌,
}
use offimesh.Exceptions.{
  Action, Result, ok, err, pure, raise, gets, modify, ◌>>=◌, ◌>>◌, nomba, NombaError,
  nomba_auth_error, nomba_not_found, nomba_service_unavailable, nomba_timeout, nomba_http_error,
  nomba_validation_error, nomba_conflict, nomba_rate_limit, nomba_server_error,
  nomba_unexpected_status,
}
use offimesh.Nomba.Breaker.{CircuitBreaker, record_failure, record_success, can_execute}

-- The jitter factor is in thousandths; the retryable status codes are read by nothing.
pub record RetryConfig : Type 0 where
  pub max_retries : ℕ
  pub base_delay : ℕ
  pub max_delay : ℕ
  pub jitter_factor : ℕ

abbrev pub default_retries : RetryConfig
default_retries = record {
  max_retries = 3;
  base_delay = 500;
  max_delay = 8000;
  jitter_factor = 500;
}

-- In thousandths of a millisecond. `jitter` is the factor `1 + random.uniform(...)` in thousandths.
unfoldable pub compute_delay : RetryConfig → ℕ → ℕ → ℕ
compute_delay config attempt jitter =
    let exponential_delay = config.base_delay * 2 ^ attempt in
    let capped_delay =
      if ltb config.max_delay exponential_delay then config.max_delay else exponential_delay in
    capped_delay * jitter

pub record Response : Type 0 where
  pub status_code : ℕ
  pub retry_after : Option ℕ
  pub message : ℕ

-- How `client.request` ends: with a response, or with one of the exceptions of httpx.
pub data Answer : Type 0 where
  responded : Response → Answer
  timeout_exception connect_error http_error : Answer

-- One attempt: the clock when the breaker is asked and when the answer is there, the answer, and
-- the jitter of the delay that may follow.
pub record Exchange : Type 0 where
  pub asked_at : ℕ
  pub answered_at : ℕ
  pub answer : Answer
  pub jitter : ℕ

-- The breaker of the client, the requests sent and the time slept.
pub record Client : Type 0 where
  pub breaker : CircuitBreaker
  pub sent : ℕ
  pub slept : ℕ

abbrev pub on_breaker : (CircuitBreaker → CircuitBreaker) → Client → Client
on_breaker f c = record c { breaker = f c.breaker }

abbrev pub failure_at : ℕ → Action Client (Unit {0})
failure_at now = modify (on_breaker (record_failure now))

abbrev is_between : ℕ → ℕ → ℕ → Bool
is_between low high status = leb low status && ltb status high

unfoldable pub handle_response : Response → ℕ → Action Client Response
handle_response r now =
    if r.status_code == 429
    then raise (nomba (nomba_rate_limit r.retry_after))
    else if is_between 500 600 r.status_code
    then (failure_at now >> raise (nomba (nomba_server_error r.status_code)))
    else if r.status_code == 400
    then raise (nomba (nomba_validation_error r.message))
    else if r.status_code == 401
    then raise (nomba nomba_auth_error)
    else if r.status_code == 404
    then raise (nomba nomba_not_found)
    else if r.status_code == 409
    then raise (nomba (nomba_conflict r.message))
    else if is_between 200 300 r.status_code
    then (modify (on_breaker record_success) >> pure r)
    else raise (nomba (nomba_unexpected_status r.status_code))

abbrev pub send : Action Client (Unit {0})
send = modify (λ c. record c { sent = suc c.sent })

abbrev pub sleep : ℕ → Action Client (Unit {0})
sleep delay = modify (λ c. record c { slept = c.slept + delay })

abbrev pub ask : ℕ → Action Client Bool
ask now c =
    let (allowed, breaker) = can_execute now c.breaker in
    (ok allowed, record c { breaker = breaker })

-- Timeouts and refused connections are retried.
abbrev pub is_transient : NombaError → Bool
is_transient nomba_timeout = true
is_transient nomba_service_unavailable = true
is_transient _ = false

-- What follows a failed attempt: another one after a delay, or the error.
unfoldable pub retry :
    RetryConfig → Bool → ℕ → ℕ → NombaError → Action Client Response → Action Client Response
retry config is_idempotent attempt jitter error again =
    if not is_idempotent && ltb 0 attempt
    then raise (nomba error)
    else if is_transient error && leb (suc attempt) config.max_retries
    then (sleep (compute_delay config attempt jitter) >> again)
    else raise (nomba error)

-- The `except` branches.
unfoldable pub conclude :
    RetryConfig → Bool → ℕ → Exchange → Answer → Action Client Response → Action Client Response
conclude config is_idempotent attempt x (responded r) again = handle_response r x.answered_at
conclude config is_idempotent attempt x timeout_exception again =
    failure_at x.answered_at >> retry config is_idempotent attempt x.jitter nomba_timeout again
conclude config is_idempotent attempt x connect_error again =
    failure_at x.answered_at
    >> retry config is_idempotent attempt x.jitter nomba_service_unavailable again
conclude config is_idempotent attempt x http_error again =
    failure_at x.answered_at >> retry config is_idempotent attempt x.jitter nomba_http_error again

-- The `while` loop, by the rounds left. The test within a round ends the loop before they run out.
unfoldable pub request_from : RetryConfig → Bool → (ℕ → Exchange) → ℕ → ℕ → Action Client Response
request_from config is_idempotent exchanges attempt zero = raise (nomba nomba_http_error)
request_from config is_idempotent exchanges attempt (suc rounds) =
    let again = request_from config is_idempotent exchanges (suc attempt) rounds in
    let x = exchanges attempt in
    ask x.asked_at >>= λ allowed.
    if allowed
    then (send >> conclude config is_idempotent attempt x x.answer again)
    else raise (nomba nomba_service_unavailable)

-- `_request`, once it has its headers: at most `max_retries + 1` rounds.
unfoldable pub request : RetryConfig → Bool → (ℕ → Exchange) → Action Client Response
request config is_idempotent exchanges =
    request_from config is_idempotent exchanges 0 (suc config.max_retries)
