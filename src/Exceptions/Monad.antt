-- ===== src/Exceptions/Monad.antt =====
-- A service method is an action on the state of its database session. The state comes back
-- beside an exception too: what was written before the raise stays pending in the session.
use offimesh.Prelude.{ℕ, ℤ, Bool, true, false, Option, none, some, if◌then◌else◌}

-- The texts that `ValidationError` is raised with.
pub data Message : Type 0 where
  amount_must_be_positive : Message
  insufficient_balance : ℤ → ℤ → Message
  cannot_provision device_not_trusted device_not_eligible : Message
  token_past_cutoff token_past_cutoff_time : Message
  token_is_exhausted token_is_expired token_is_revoked token_has_been_revoked : Message
  insufficient_token_balance : Message
  unknown_id_type no_verified_id : Message

-- `NombaError` and its subclasses, as the client of app/integrations/nomba raises them: with the
-- text of the answer, the seconds of Retry-After or the status of the answer.
pub data NombaError : Type 0 where
  nomba_auth_error nomba_not_found nomba_service_unavailable : NombaError
  nomba_timeout nomba_http_error : NombaError
  nomba_validation_error nomba_conflict : ℕ → NombaError
  nomba_rate_limit : Option ℕ → NombaError
  nomba_server_error nomba_unexpected_status : ℕ → NombaError

pub data Error : Type 0 where
  validation : Message → Error
  insufficient_funds : ℤ → ℤ → Error
  not_found : Error
  token_expired token_exhausted : Error
  fraud_block : ℕ → Error
  batch_limit_exceeded : ℕ → ℕ → Error
  settlement_already_processed : Error
  settlement_error : Error
  webhook_signature_error : Error
  conflict invalid_otp authentication_error invalid_token : Error
  nomba : NombaError → Error
  -- `HTTPException` with its status
  http_error : ℕ → Error
  value_error type_error attribute_error import_error syntax_error : Error
  -- raised by the database and its session
  integrity_error multiple_results_found session_aborted : Error
  -- `ResponseError` of Redis
  redis_error : Error

pub data Result (A : Type 0) : Type 0 where
  ok : A → Result A
  err : Error → Result A

abbrev pub is_ok : {A : Type 0} → Result A → Bool
is_ok (ok _) = true
is_ok (err _) = false

abbrev pub Action : Type 0 → Type 0 → Type 0
Action S A = S → Result A × S

module _ {S A : Type 0} where
  abbrev pub pure : A → Action S A
  pure a s = (ok a, s)

  abbrev pub raise : Error → Action S A
  raise e s = (err e, s)

  -- A result that is there already: the value, or the exception.
  abbrev pub returned : Result A → Action S A
  returned r s = (r, s)

  abbrev pub gets : (S → A) → Action S A
  gets f s = (ok (f s), s)

  abbrev pub or_raise : Option A → Error → Action S A
  or_raise none e = raise e
  or_raise (some a) _ = pure a

module _ {S A B : Type 0} where
  abbrev pub continue : Result A → (A → Action S B) → Action S B
  continue (ok a) f s = f a s
  continue (err e) f s = (err e, s)

  infixl 5 ◌>>=◌ ◌>>◌
  abbrev pub ◌>>=◌ : Action S A → (A → Action S B) → Action S B
  ◌>>=◌ m f s = let (r, s') = m s in continue r f s'

  abbrev pub ◌>>◌ : Action S A → Action S B → Action S B
  m >> k = m >>= λ _. k

module _ {S : Type 0} where
  abbrev pub raise_if : Bool → Error → Action S (Unit {0})
  raise_if c e s = (if c then err e else ok tt, s)

  abbrev pub modify : (S → S) → Action S (Unit {0})
  modify f s = (ok tt, f s)

-- `get_session` and `get_session_context` of app/core/database.py: commit what the block wrote,
-- or roll all of it back when the block raises.
module _ {S A : Type 0} where
  abbrev pub commit_or_rollback : S → Result A × S → Result A × S
  commit_or_rollback s (ok a, s') = (ok a, s')
  commit_or_rollback s (err e, s') = (err e, s)

  abbrev pub session : Action S A → Action S A
  session m s = commit_or_rollback s (m s)
