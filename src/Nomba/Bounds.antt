-- ===== src/Nomba/Bounds.antt =====
-- How often a call sends, how long it sleeps, and what an answer means.
use native.Mathlib.Nat.{suc-mul}
use offimesh.Prelude.{
  ℕ, zero, suc, ◌+◌, ◌*◌, ◌≤◌, ◌≡◌, Bool, true, false, if◌then◌else◌, arith, ap, ◌∙◌,
}
use offimesh.Nomba.Rounds.{request_from-enough}
use offimesh.Nomba.{RetryConfig, Exchange, Client, request_from, request}
use offimesh.Nomba.Steps.{
  Within, failed, slower, compute_delay-le, conclude-Within, conclude_last, round-Within,
}

-- No delay of a call is above this.
abbrev pub longest_delay : RetryConfig → ℕ
longest_delay config = config.max_delay * (1000 + config.jitter_factor)

abbrev pub HasJitterWithin : RetryConfig → (ℕ → Exchange) → Type 0
HasJitterWithin config xs = (i : ℕ) → (xs i).jitter ≤ 1000 + config.jitter_factor

request_from-Within :
    (config : RetryConfig) (idem : Bool) (xs : ℕ → Exchange) (attempt rounds : ℕ) (c : Client)
    → HasJitterWithin config xs
    → Within rounds
        (rounds * longest_delay config)
        c
        (request_from config idem xs attempt rounds c).1
unfolding request_from
request_from-Within config idem xs attempt zero c h = slower _ _ (omega arith) (failed c c.breaker)
request_from-Within config idem xs attempt (suc rounds) c h =
    let D = longest_delay config in
    slower (D + rounds * D) _ (omega (arith, suc-mul rounds D)) (
      round-Within config idem xs attempt rounds rounds (D + rounds * D) c (λ again e c'.
        conclude-Within config idem attempt rounds (rounds * D) D (xs attempt) (xs attempt).answer
          again c' (compute_delay-le config attempt (xs attempt).jitter (h attempt))
          (λ c''. rw e (request_from-Within config idem xs (suc attempt) rounds c'' h))))

-- After the first attempt, a request that must not be repeated is sent once more at most.
second_try-Within :
    (config : RetryConfig) (xs : ℕ → Exchange) (attempt rounds : ℕ) (c : Client)
    → Within 1 0 c (request_from config false xs (suc attempt) rounds c).1
unfolding request_from
second_try-Within config xs attempt zero c = record {
  at_least = omega arith;
  at_most = omega arith;
  sleeps = omega arith;
}
second_try-Within config xs attempt (suc rounds) c =
    round-Within config false xs (suc attempt) rounds 0 0 c (λ again e c'.
      conclude_last config attempt (xs (suc attempt)) (xs (suc attempt)).answer again c')

first_try-Within :
    (config : RetryConfig) (xs : ℕ → Exchange) (rounds : ℕ) (c : Client)
    → HasJitterWithin config xs
    → Within 2 (longest_delay config) c (request_from config false xs 0 (suc rounds) c).1
first_try-Within config xs rounds c h =
    let D = longest_delay config in
    slower (D + 0) _ (omega arith) (
      round-Within config false xs 0 rounds 1 (D + 0) c (λ again e c'.
        conclude-Within config false 0 1 0 D (xs 0) (xs 0).answer again c'
          (compute_delay-le config 0 (xs 0).jitter (h 0))
          (λ c''. rw e (second_try-Within config xs 0 rounds c''))))

rounds_enough :
    (config : RetryConfig) (idem : Bool) (xs : ℕ → Exchange) (more : ℕ) (c : Client)
    → request_from config idem xs 0 (suc config.max_retries + more) c
      ≡ request_from config idem xs 0 (suc config.max_retries) c
rounds_enough config idem xs more c =
    let n : suc config.max_retries + more ≡ suc (config.max_retries + more) = omega arith in
    ap (λ n. request_from config idem xs 0 n c) n
    ∙ request_from-enough config idem xs 0 (config.max_retries + more) config.max_retries c
        (omega arith) (omega arith)

-- Whatever the network, the clock and the breaker do, with jitter factors in the range of the
-- configuration, a call ends within its rounds, more of which would change nothing. It sends its
-- request at most once more than `max_retries`, or at most twice if it is not idempotent, and sleeps
-- at most the longest delay for each round or, if it is not idempotent, once.
pub request_bounds :
    (config : RetryConfig) (idem : Bool) (xs : ℕ → Exchange) (c : Client)
    → HasJitterWithin config xs
    → let c' = (request config idem xs c).1 in
      let D = longest_delay config in
      ((more : ℕ)
        → request_from config idem xs 0 (suc config.max_retries + more) c
          ≡ request config idem xs c)
      × (c.sent ≤ c'.sent)
      × (c'.sent ≤ c.sent + (if idem then suc config.max_retries else 2))
      × (c'.slept ≤ c.slept + (if idem then suc config.max_retries * D else D))
unfolding request
request_bounds config true xs c h =
    let w = request_from-Within config true xs 0 (suc config.max_retries) c h in
    (λ more. rounds_enough config true xs more c, w.at_least, w.at_most, w.sleeps)
request_bounds config false xs c h =
    let w = first_try-Within config xs config.max_retries c h in
    (λ more. rounds_enough config false xs more c, w.at_least, w.at_most, w.sleeps)
