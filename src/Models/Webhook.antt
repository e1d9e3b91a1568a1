-- ===== src/Models/Webhook.antt =====
-- app/models/webhook.py and app/models/virtual_account.py. An amount of a payload is in kobo
-- already, rounded as `int(round(float(amount) * 100))` does.
use offimesh.Prelude.{ℕ, ℤ, Option, Bool}

-- `event_type`; the strings that the code does not name are `other_event`.
pub data NombaEventType : Type 0 where
  payment_success payout_success payment_failed payout_failed : NombaEventType
  payment_reversal payout_refund : NombaEventType
  other_event : ℕ → NombaEventType

-- What the handlers read of `data.transaction`; `none` is a key that is not there.
pub record Payload : Type 0 where
  pub is_virtual : Bool
  pub account_ref : Option ℕ
  pub amount_kobo : Option ℤ
  pub transaction_id : Option ℕ
  pub merchant_tx_ref : Option ℕ
  pub response_code : Option ℕ

pub record WebhookEvent : Type 0 where
  pub id : ℕ
  pub request_id : ℕ
  pub event_type : NombaEventType
  pub payload : Payload
  pub signature_valid : Bool
  pub processed : Bool
  pub has_error : Bool

pub data AccountStatus : Type 0 where
  pending active expired_account funded underpaid overpaid : AccountStatus

pub record VirtualAccount : Type 0 where
  pub id : ℕ
  pub user_id : ℕ
  pub nomba_account_id : ℕ
  pub expected_amount_kobo : Option ℤ
  pub received_amount_kobo : Option ℤ
  pub account_status : AccountStatus
  pub is_primary : Bool

abbrev pub webhook_key : WebhookEvent → ℕ
webhook_key w = w.id

abbrev pub request_key : WebhookEvent → ℕ
request_key w = w.request_id

abbrev pub account_key : VirtualAccount → ℕ
account_key a = a.id
