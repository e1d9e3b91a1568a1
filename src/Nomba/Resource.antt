-- ===== src/Nomba/Resource.antt =====
-- `NombaResourceClient` of app/integrations/nomba/base_client.py: a request and the reading of its
-- answer. The reading of a body as JSON is an argument.
pub mod Ready
use offimesh.Prelude.{ℕ, Bool, true, Option, none, some}
use offimesh.Exceptions.{
  Action, Result, ok, err, returned, ◌>>=◌, ◌>>◌, nomba, nomba_not_found, attribute_error,
}
use offimesh.Nomba.{RetryConfig, Exchange, Response}
use offimesh.Nomba.Access.{TokenCache, Site, AuthAnswer, authorised_request}
use offimesh.Nomba.Json.{Json, Key, unwrap, flag_of}

-- How one call goes: what the token endpoint would answer, and the attempts by what is sent.
pub record Network (Q : Type 0) : Type 0 where
  pub endpoint : AuthAnswer
  pub exchanges : Q → ℕ → Exchange

-- `except NombaNotFoundError`
unfoldable pub found_or_none : {A : Type 0} → Result A → Result (Option A)
found_or_none (ok a) = ok (some a)
found_or_none (err (nomba nomba_not_found)) = ok none
found_or_none (err e) = err e

-- Only an object has `get`.
abbrev pub or_attribute_error : {A : Type 0} → Option A → Result A
or_attribute_error none = err attribute_error
or_attribute_error (some a) = ok a

module _ {C : Type 0} (redis : TokenCache C) (config : RetryConfig)
    (json : Response → Result Json) where
  unfoldable pub read_json : {Q : Type 0} → Bool → Network Q → Q → Action (Site C) Json
  read_json is_idempotent network q = do
    response ← authorised_request redis config is_idempotent network.endpoint (network.exchanges q)
    returned (json response)

  -- `_parse_response` of the answer.
  unfoldable pub parse_response :
      {Q A : Type 0} → (Json → Result A) → Bool → Network Q → Q → Action (Site C) A
  parse_response validate is_idempotent network q = do
    payload ← read_json is_idempotent network q
    returned (validate (unwrap payload))

  -- A flag of the object under "data".
  unfoldable pub read_flag : {Q : Type 0} → Key → Network Q → Q → Action (Site C) Bool
  read_flag key network q = do
    payload ← read_json true network q
    returned (or_attribute_error (flag_of key payload))
