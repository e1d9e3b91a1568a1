-- ===== src/Nomba/Breaker.antt =====
-- `CircuitBreaker` of app/integrations/nomba/base_client.py. `now` is the clock in milliseconds.
use offimesh.Prelude.{
  ℕ, suc, ◌+◌, ltb, leb, Bool, true, false, Option, none, some, List, [], ◌∷◌, ◌++◌, if◌then◌else◌,
  filter_by, length,
}

-- The state "open" is `tripped`.
pub data CircuitState : Type 0 where
  closed tripped half_open : CircuitState

pub record CircuitBreaker : Type 0 where
  pub failure_threshold : ℕ
  pub reset_timeout : ℕ
  pub window : ℕ
  pub failures : List ℕ
  pub last_failure_time : Option ℕ
  pub state : CircuitState
  pub half_open_attempts : ℕ

abbrev pub new_breaker : CircuitBreaker
new_breaker = record {
  failure_threshold = 5;
  reset_timeout = 30000;
  window = 60000;
  failures = [];
  last_failure_time = none;
  state = closed;
  half_open_attempts = 0;
}

abbrev pub recent_failures : ℕ → CircuitBreaker → List ℕ
recent_failures now b = filter_by (λ f. ltb now (f + b.window)) b.failures ++ now ∷ []

unfoldable pub record_failure : ℕ → CircuitBreaker → CircuitBreaker
record_failure now b = record b {
  failures = recent_failures now b;
  last_failure_time = some now;
  state = if leb b.failure_threshold (length (recent_failures now b)) then tripped else b.state;
}

unfoldable pub record_success : CircuitBreaker → CircuitBreaker
record_success b = record b { failures = []; state = closed; half_open_attempts = 0 }

-- Whether the reset timeout has passed since the last failure.
abbrev pub has_cooled : Option ℕ → ℕ → ℕ → Bool
has_cooled none timeout now = false
has_cooled (some last) timeout now = leb (last + timeout) now

abbrev pub decide : CircuitState → ℕ → CircuitBreaker → Bool × CircuitBreaker
decide closed now b = (true, b)
decide tripped now b =
    if has_cooled b.last_failure_time b.reset_timeout now
    then (true, record b { state = half_open; half_open_attempts = 0 })
    else (false, b)
decide half_open now b =
    if ltb b.half_open_attempts 3
    then (true, record b { half_open_attempts = suc b.half_open_attempts })
    else (false, b)

unfoldable pub can_execute : ℕ → CircuitBreaker → Bool × CircuitBreaker
can_execute now b = decide b.state now b
