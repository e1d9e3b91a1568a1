-- ===== src/Webhooks.antt =====
-- app/services/webhook_service.py, app/repositories/webhook_repository.py and the tasks of
-- app/workers/webhook_worker.py.
pub mod Signatures
pub mod Deliveries
pub mod Keeps
pub mod Processing
pub mod Sweep
mod Tests
use offimesh.Prelude.{
  ℕ, zero, suc, ℤ, Bool, true, false, not, ◌&&◌, Option, none, some, List, [], ◌∷◌, ◌++◌, ◌==◌,
  if◌then◌else◌, find, replace, filter_by, is_some,
}
use offimesh.Exceptions.{
  Action, Result, ok, err, Error, pure, raise, raise_if, gets, or_raise, modify, ◌>>=◌, ◌>>◌,
  session, value_error, type_error, webhook_signature_error, session_aborted,
}
use offimesh.Models.{
  Db, audit, webhook_received, WebhookEvent, webhook_key, request_key, NombaEventType,
  payment_success, payout_success, payment_failed, payout_failed, payment_reversal, payout_refund,
  other_event, Payload,
}
use offimesh.Settlements.{process_transfer_success_webhook, process_transfer_failed_webhook}
use offimesh.Webhooks.Signatures.{Body, Signing, get_or_empty, verify_signature}

-- A string that is there and not empty.
abbrev pub non_empty : Option ℕ → Option ℕ
non_empty none = none
non_empty (some s) = if s == 0 then none else some s

abbrev either : Option ℕ → Option ℕ → Option ℕ
either none other = other
either (some s) other = some s

abbrev pub request_id_of : Body → Option ℕ
request_id_of body = either (non_empty body.request_id) (non_empty body.snake_request_id)

abbrev pub new_event : ℕ → ℕ → Body → WebhookEvent
new_event id request_id body = record {
  id = id;
  request_id = request_id;
  event_type = body.event_type;
  payload = body.payload;
  signature_valid = true;
  processed = false;
  has_error = false;
}

-- `webhook_repo.create`
abbrev pub store : WebhookEvent → Db → Db
store event db = record db { webhooks = event ∷ db.webhooks }

-- The body is `none` where it is not JSON. `WebhookDuplicateError` is called with an argument that
-- it does not take.
unfoldable pub handle_webhook : Signing → Option Body → ℕ → ℕ → ℕ → Action Db WebhookEvent
handle_webhook g none signature timestamp id = raise value_error
handle_webhook g (some body) signature timestamp id = do
  raise_if (not (verify_signature g body signature timestamp)) webhook_signature_error
  request_id ← or_raise (request_id_of body) value_error
  existing ← gets (λ db. find request_key request_id db.webhooks)
  raise_if (is_some existing) type_error
  modify (store (new_event id request_id body))
  audit webhook_received request_id
  pure (new_event id request_id body)

-- An `update(WebhookEvent).where(id == ...)`.
unfoldable pub update_webhook : ℕ → (WebhookEvent → WebhookEvent) → Db → Db
update_webhook id change db = elim (find webhook_key id db.webhooks) [
  | none ↦ db
  | some w ↦ record db { webhooks = replace webhook_key (change w) db.webhooks }
]

abbrev pub mark_processed : ℕ → Db → Db
mark_processed id = update_webhook id (λ w. record w { processed = true })

abbrev pub mark_failed : ℕ → Db → Db
mark_failed id = update_webhook id (λ w. record w { processed = true; has_error = true })

-- `process_funding` has no parameter `account_ref`.
abbrev pub handle_virtual_account_funded : Payload → Action Db (Unit {0})
handle_virtual_account_funded payload =
    raise_if (is_some (non_empty payload.account_ref) && is_some payload.amount_kobo) type_error

abbrev pub with_merchant_ref : Option ℕ → (ℕ → Action Db (Unit {0})) → Action Db (Unit {0})
with_merchant_ref none m = pure tt
with_merchant_ref (some tx_id) m = m tx_id

abbrev pub handle_transfer_success : Payload → Action Db (Unit {0})
handle_transfer_success payload =
    with_merchant_ref (non_empty payload.merchant_tx_ref)
      (λ tx_id. process_transfer_success_webhook tx_id (get_or_empty payload.transaction_id))

abbrev pub handle_transfer_failed : Payload → Action Db (Unit {0})
handle_transfer_failed payload =
    with_merchant_ref (non_empty payload.merchant_tx_ref)
      (λ tx_id. process_transfer_failed_webhook tx_id payload.response_code)

unfoldable pub dispatch : NombaEventType → Payload → Action Db (Unit {0})
dispatch payment_success payload =
    if payload.is_virtual then handle_virtual_account_funded payload else pure tt
dispatch payout_success payload = handle_transfer_success payload
dispatch payment_failed payload = handle_transfer_failed payload
dispatch payout_failed payload = handle_transfer_failed payload
dispatch payment_reversal payload = pure tt
dispatch payout_refund payload = pure tt
dispatch (other_event _) payload = pure tt

-- The handler of `process_event`: in an aborted transaction its own update raises.
abbrev pub is_aborted : Error → Bool
is_aborted session_aborted = true
is_aborted _ = false

abbrev pub except : ℕ → Error → Db → Result (Unit {0}) × Db
except id e db = (err e, if is_aborted e then db else mark_failed id db)

abbrev pub close_event : ℕ → Result (Unit {0}) → Db → Result (Unit {0}) × Db
close_event id (ok _) db = (ok tt, mark_processed id db)
close_event id (err e) db = except id e db

unfoldable pub process_event : WebhookEvent → Action Db (Unit {0})
process_event event db =
    let (r, db') = dispatch event.event_type event.payload db in close_event event.id r db'

pub data TaskStatus : Type 0 where
  not_found_status already_processed processed_status : TaskStatus

unfoldable pub process_found : Option WebhookEvent → Action Db TaskStatus
process_found none = pure not_found_status
process_found (some event) =
    if event.processed
    then pure already_processed
    else (process_event event >> pure processed_status)

unfoldable pub process_webhook_event : ℕ → Action Db TaskStatus
process_webhook_event event_id =
    session (gets (λ db. find webhook_key event_id db.webhooks) >>= process_found)

abbrev pub reverse_onto : List WebhookEvent → List WebhookEvent → List WebhookEvent
reverse_onto [] done = done
reverse_onto (w ∷ ws) done = reverse_onto ws (w ∷ done)

abbrev pub take : ℕ → List WebhookEvent → List WebhookEvent
take zero ws = []
take (suc n) [] = []
take (suc n) (w ∷ ws) = w ∷ take n ws

-- The oldest first.
unfoldable pub get_unprocessed : ℕ → Db → List WebhookEvent
get_unprocessed limit db =
    take limit (filter_by (λ w. not w.processed && w.signature_valid) (reverse_onto db.webhooks []))

-- What follows an event in the loop of `process_pending_webhooks`. Once the transaction is aborted
-- every statement raises, and the commit at the end rolls back to `start`.
abbrev pub go_on : Result (Unit {0}) → Db → (ℕ → Db → ℕ × Db) → ℕ → Db → ℕ × Db
go_on (ok _) start rest count db = rest (suc count) db
go_on (err e) start rest count db = if is_aborted e then (count, start) else rest count db

-- The loop: how many events were processed, and the tables.
unfoldable pub process_each : Db → List WebhookEvent → ℕ → Db → ℕ × Db
process_each start [] count db = (count, db)
process_each start (event ∷ events) count db =
    let (r, db') = process_event event db in go_on r start (process_each start events) count db'

unfoldable pub process_pending_webhooks : Action Db ℕ
process_pending_webhooks db =
    let (count, db') = process_each db (get_unprocessed 100 db) 0 db in (ok count, db')
