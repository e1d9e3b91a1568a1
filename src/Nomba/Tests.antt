-- ===== src/Nomba/Tests.antt =====
-- The bank's client at concrete inputs.
use offimesh.Prelude.{
  ℕ, zero, suc, ◌+◌, ◌*◌, ◌≤◌, ◌<◌, ◌≡◌, refl, inl, inr, ◌⊎◌, true, false, none, some, [], ◌∷◌,
  arith,
}
use offimesh.Exceptions.{ok, err, nomba, nomba_service_unavailable}
use offimesh.Nomba.Breaker.{can_execute, record_failure, new_breaker, closed, tripped}
use offimesh.Nomba.{
  default_retries, Response, Answer, responded, timeout_exception, connect_error, Exchange, Client,
  request, request_from, retry, conclude,
}
use offimesh.Nomba.Bounds.{longest_delay, HasJitterWithin, request_bounds}
use offimesh.Nomba.Starvation.{Call, run_calls, IsRejected, four_rejections-starve}
use offimesh.Nomba.Recovery.{request-recovers}

abbrev fresh_client : Client
fresh_client = record { breaker = new_breaker; sent = 0; slept = 0 }

abbrev done : Response
done = record { status_code = 200; retry_after = none; message = 0 }

abbrev at_time : ℕ → Answer → Exchange
at_time t a = record { asked_at = t; answered_at = t + 10; answer = a; jitter = 1200 }

-- The first two attempts fail.
abbrev third_time : ℕ → Exchange
third_time zero = at_time 1000 timeout_exception
third_time (suc zero) = at_time 2000 connect_error
third_time (suc (suc _)) = at_time 4000 (responded done)

abbrev timeouts : ℕ → Exchange
timeouts _ = at_time 1000 timeout_exception

-- A call that is not to be repeated is sent twice all the same.
not_idempotent_twice : (request default_retries false timeouts fresh_client).1.sent ≡ 2
unfolding request request_from conclude retry can_execute record_failure
not_idempotent_twice = refl

third_time-jitter : HasJitterWithin default_retries third_time
third_time-jitter zero = omega arith
third_time-jitter (suc zero) = omega arith
third_time-jitter (suc (suc i)) = omega arith

request_bounds_example :
    let c' = (request default_retries true third_time fresh_client).1 in
    let D = longest_delay default_retries in
    ((more : ℕ)
      → request_from default_retries true third_time 0 (4 + more) fresh_client
        ≡ request default_retries true third_time fresh_client)
    × (0 ≤ c'.sent)
    × (c'.sent ≤ 0 + 4)
    × (c'.slept ≤ 0 + 4 * D)
request_bounds_example =
    request_bounds default_retries true third_time fresh_client third_time-jitter

third_time-fails :
    (i : ℕ)
    → i < 2
    → ((third_time i).answer ≡ timeout_exception) ⊎ ((third_time i).answer ≡ connect_error)
third_time-fails zero h = inl refl
third_time-fails (suc zero) h = inr refl
third_time-fails (suc (suc i)) h = absurd (omega (arith, h))

request-recovers_example :
    let (result, c') = request default_retries true third_time fresh_client in
    (result ≡ ok done)
    × (c'.sent ≡ 0 + 3)
    × (c'.breaker.state ≡ closed)
    × (c'.breaker.failures ≡ [])
request-recovers_example =
    request-recovers default_retries third_time done 2 fresh_client refl refl (omega arith)
      (omega arith) third_time-fails refl refl

-- Tripped half a minute ago.
abbrev tripped_client : Client
tripped_client = record {
  breaker = record new_breaker { state = tripped; last_failure_time = some 1000 };
  sent = 9;
  slept = 0;
}

abbrev unknown_id : Response
unknown_id = record { status_code = 404; retry_after = none; message = 7 }

abbrev lookup : Call
lookup = record { is_idempotent = true; exchanges = λ _. at_time 40000 (responded unknown_id) }

lookup-IsRejected : IsRejected lookup.exchanges
lookup-IsRejected = (unknown_id, refl, refl)

abbrev transfer : Call
transfer = record { is_idempotent = false; exchanges = λ _. at_time 90000 (responded done) }

four_rejections-starve_example :
    let c = (run_calls default_retries (lookup ∷ lookup ∷ lookup ∷ lookup ∷ []) tripped_client).1 in
    run_calls default_retries (transfer ∷ transfer ∷ []) c
    ≡ (err (nomba nomba_service_unavailable) ∷ err (nomba nomba_service_unavailable) ∷ [], c)
four_rejections-starve_example =
    four_rejections-starve default_retries tripped_client lookup lookup lookup lookup
      (transfer ∷ transfer ∷ []) refl refl lookup-IsRejected lookup-IsRejected lookup-IsRejected
      lookup-IsRejected
