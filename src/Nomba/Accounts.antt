-- ===== src/Nomba/Accounts.antt =====
-- app/integrations/nomba/virtual_accounts.py. The length of a text and the validation of an answer as a
-- model are arguments; the sub-account in the path is fixed and left out. An amount in naira stands in
-- hundredths.
use offimesh.Prelude.{ℕ, ℤ, leb, Bool, true, false, not, ◌&&◌, Option, List}
use offimesh.Exceptions.{
  Action, Result, ok, err, raise_if, returned, ◌>>=◌, ◌>>◌, value_error, attribute_error,
}
use offimesh.Nomba.{RetryConfig, Response}
use offimesh.Nomba.Access.{TokenCache, Site}
use offimesh.Nomba.Json.{
  Json, null, boolean, number, text, array, object, nil, end, get_or, data_key, results_key,
  updated_key, expired_key, cursor_of, validate_each,
}
use offimesh.Nomba.Resource.{Network, read_json, read_flag, parse_response}

-- `NombaVirtualAccountResponse`, the fields that are read here or by the wallet. It has no
-- `account_id`.
pub record AccountResponse : Type 0 where
  pub account_holder_id : ℕ
  pub account_ref : ℕ
  pub account_name : ℕ
  pub account_number : ℕ
  pub bank_name : ℕ
  pub expired : Bool

pub record AccountBody : Type 0 where
  pub account_ref : ℕ
  pub account_name : ℕ
  pub expected_hundredths : Option ℤ

-- The fields that a change gives.
pub record AccountChange : Type 0 where
  pub identifier : ℕ
  pub new_account_ref : Option ℕ
  pub account_name : Option ℕ
  pub callback_url : Option ℕ
  pub expected_hundredths : Option ℤ

pub record AccountFilter : Type 0 where
  pub limit : Option ℕ
  pub cursor : Option Json
  pub account_name : Option ℕ
  pub account_ref : Option ℕ
  pub bank_account_number : Option ℕ
  pub expired : Option Bool
  pub resource_acquired : Option Bool

abbrev is_within : ℕ → ℕ → ℕ → Bool
is_within low high n = leb low n && leb n high

module _ (len : ℕ → ℕ) where
  unfoldable pub validate_account_ref : {S : Type 0} → ℕ → Action S (Unit {0})
  validate_account_ref account_ref = raise_if (not (is_within 16 64 (len account_ref))) value_error

  unfoldable pub validate_account_name : {S : Type 0} → ℕ → Action S (Unit {0})
  validate_account_name account_name =
      raise_if (not (is_within 8 64 (len account_name))) value_error

-- `response.json().get("data", {})`
unfoldable pub data_of : Json → Result Json
data_of (object fs) = ok (get_or data_key (object end) fs)
data_of null = err attribute_error
data_of (boolean b) = err attribute_error
data_of (number n) = err attribute_error
data_of (text n) = err attribute_error
data_of (array xs) = err attribute_error

module _ (validate : Json → Result AccountResponse) where
  unfoldable pub accounts_of : Json → Result (List AccountResponse × Option Json)
  accounts_of (object fs) = elim (validate_each validate (get_or results_key (array nil) fs)) [
    | err e ↦ err e
    | ok accounts ↦ ok (accounts, cursor_of (object fs))
  ]
  accounts_of null = err attribute_error
  accounts_of (boolean b) = err attribute_error
  accounts_of (number n) = err attribute_error
  accounts_of (text n) = err attribute_error
  accounts_of (array xs) = err attribute_error

module _ {C : Type 0} (redis : TokenCache C) (config : RetryConfig)
    (json : Response → Result Json) where
  module _ (validate : Json → Result AccountResponse) where
    unfoldable pub create_virtual_account :
        (ℕ → ℕ) → ℕ → ℕ → Option ℤ → Network AccountBody → Action (Site C) AccountResponse
    create_virtual_account len account_ref account_name amount network = do
      validate_account_ref len account_ref
      validate_account_name len account_name
      parse_response redis config json validate true network (record {
        account_ref = account_ref;
        account_name = account_name;
        expected_hundredths = amount;
      })

    unfoldable pub get_virtual_account : ℕ → Network ℕ → Action (Site C) AccountResponse
    get_virtual_account identifier network =
        parse_response redis config json validate true network identifier

    -- This `_post` leaves `is_idempotent` at its default.
    unfoldable pub filter_virtual_accounts :
        AccountFilter → Network AccountFilter → Action (Site C) (List AccountResponse × Option Json)
    filter_virtual_accounts filter network = do
      payload ← read_json redis config json false network filter
      data' ← returned (data_of payload)
      returned (accounts_of validate data')

  unfoldable pub update_virtual_account :
      AccountChange → Network AccountChange → Action (Site C) Bool
  update_virtual_account change network = read_flag redis config json updated_key network change

  unfoldable pub expire_virtual_account : ℕ → Network ℕ → Action (Site C) Bool
  expire_virtual_account identifier network =
      read_flag redis config json expired_key network identifier
