-- ===== src/Webhooks/Signatures.antt =====
-- `_build_signing_string` and `verify_signature` of app/services/webhook_service.py.
use offimesh.Prelude.{ℕ, Bool, not, ◌&&◌, Option, none, some, List, ◌∷◌, ◌++◌, ◌==◌, if◌then◌else◌}
use offimesh.Models.{NombaEventType, Payload}

-- The parsed body: the fields of the signing string, in the order of that string where they are not
-- in the payload too.
pub record Body : Type 0 where
  pub event_type : NombaEventType
  pub request_id : Option ℕ
  pub snake_request_id : Option ℕ
  pub user_id : Option ℕ
  pub wallet_id : Option ℕ
  pub transaction_type : Option ℕ
  pub time : Option ℕ
  pub payload : Payload

-- The webhook secret of the settings, the characters of a string and of an event type, the string
-- "null", and HMAC-SHA256 in base64. Digest and header are compared in lower case, as they are here.
pub record Signing : Type 0 where
  pub secret : ℕ
  pub chars : ℕ → List ℕ
  pub event_chars : NombaEventType → List ℕ
  pub null_text : ℕ
  pub digest : ℕ → List ℕ → ℕ

abbrev colon : ℕ
colon = 58

-- `get(key, "")`.
abbrev pub get_or_empty : Option ℕ → ℕ
get_or_empty none = 0
get_or_empty (some s) = s

abbrev code_text : Signing → Option ℕ → ℕ
code_text g none = 0
code_text g (some code) = if code == g.null_text then 0 else code

unfoldable pub build_signing_string : Signing → Body → ℕ → List ℕ
build_signing_string g body timestamp =
    let field : Option ℕ → List ℕ → List ℕ =
      λ value rest. g.chars (get_or_empty value) ++ colon ∷ rest in
    g.event_chars body.event_type
    ++ colon
      ∷ field body.request_id (
          field body.user_id (
            field body.wallet_id (
              field body.payload.transaction_id (
                field body.transaction_type (
                  field body.time (
                    g.chars (code_text g body.payload.response_code)
                    ++ colon ∷ g.chars timestamp))))))

unfoldable pub verify_signature : Signing → Body → ℕ → ℕ → Bool
verify_signature g body signature timestamp =
    not (g.secret == 0) && (g.digest g.secret (build_signing_string g body timestamp) == signature)
