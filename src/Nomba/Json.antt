-- ===== src/Nomba/Json.antt =====
-- A body in JSON as the clients of app/integrations/nomba read it.
use offimesh.Prelude.{
  ℕ, zero, suc, ℤ, pos, negsuc, Bool, true, false, Option, none, some, List, [], ◌∷◌, ◌==◌,
  if◌then◌else◌,
}
use offimesh.Exceptions.{Result, ok, err, value_error, type_error}

-- The names that the clients look up, and any other.
pub data Key : Type 0 where
  data_key results_key cursor_key updated_key expired_key : Key
  other_key : ℕ → Key

mutual
  pub data Json : Type 0 where
    null : Json
    boolean : Bool → Json
    number : ℤ → Json
    text : ℕ → Json
    array : Items → Json
    object : Fields → Json

  pub data Items : Type 0 where
    nil : Items
    cons : Json → Items → Items

  pub data Fields : Type 0 where
    end : Fields
    field : Key → Json → Fields → Fields

abbrev pub same_key : Key → Key → Bool
same_key data_key data_key = true
same_key results_key results_key = true
same_key cursor_key cursor_key = true
same_key updated_key updated_key = true
same_key expired_key expired_key = true
same_key (other_key m) (other_key n) = m == n
same_key _ _ = false

-- `fields.get(key, default)`
unfoldable pub get_or : Key → Json → Fields → Json
get_or key default end = default
get_or key default (field k v fs) = if same_key k key then v else get_or key default fs

-- `bool(value)`
unfoldable pub truthy : Json → Bool
truthy null = false
truthy (boolean b) = b
truthy (number (pos zero)) = false
truthy (number (pos (suc n))) = true
truthy (number (negsuc n)) = true
truthy (text n) = if n == 0 then false else true
truthy (array nil) = false
truthy (array (cons x xs)) = true
truthy (object end) = false
truthy (object (field k v fs)) = true

-- The value of "data" if the body has it, or the body itself.
unfoldable pub unwrap : Json → Json
unwrap (object fs) = get_or data_key (object fs) fs
unwrap value = value

unfoldable pub results_of : Json → Json
results_of (object fs) = get_or results_key (array nil) fs
results_of value = array nil

unfoldable pub cursor_of : Json → Option Json
cursor_of (object fs) =
    let cursor = get_or cursor_key null fs in if truthy cursor then some cursor else none
cursor_of value = none

-- `bool(response.json().get("data", {}).get(key, False))`; only an object has `get`.
unfoldable pub flag_of : Key → Json → Option Bool
flag_of key (object fs) = elim (get_or data_key (object end) fs) [
  | object inner ↦ some (truthy (get_or key (boolean false) inner))
  | null ↦ none
  | boolean b ↦ none
  | number n ↦ none
  | text n ↦ none
  | array xs ↦ none
]
flag_of key value = none

module _ {A : Type 0} (validate : Json → Result A) where
  unfoldable pub validate_items : Items → Result (List A)
  validate_items nil = ok []
  validate_items (cons x xs) =
      let rest = validate_items xs in
      elim (validate x) [
        | err e ↦ err e
        | ok a ↦ elim rest [ err e ↦ err e | ok as' ↦ ok (a ∷ as') ]
      ]

  -- The loop over the results. A text or an object has only strings to offer, which no model takes.
  unfoldable pub validate_each : Json → Result (List A)
  validate_each (array xs) = validate_items xs
  validate_each (text n) = if n == 0 then ok [] else err value_error
  validate_each (object end) = ok []
  validate_each (object (field k v fs)) = err value_error
  validate_each null = err type_error
  validate_each (boolean b) = err type_error
  validate_each (number n) = err type_error
