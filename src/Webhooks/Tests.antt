-- ===== src/Webhooks/Tests.antt =====
-- Webhooks at concrete deliveries.
use offimesh.Prelude.{ℕ, pos, ◌+◌, ◌≡◌, refl, some, none, true, false, List, [], ◌∷◌, All, ◌⊎◌}
use offimesh.Exceptions.{ok, err, Error, is_ok}
use offimesh.Models.{Db, Payload, WebhookEvent, payment_success, payout_refund}
use offimesh.Webhooks.{
  handle_webhook, already_processed, TaskStatus, process_webhook_event, get_unprocessed,
  process_pending_webhooks, new_event,
}
use offimesh.Webhooks.Signatures.{Body, Signing, build_signing_string, verify_signature}
use offimesh.Webhooks.Deliveries.{
  Delivery, deliver, deliver_all, handle_webhook_again, with_unsigned, handle_webhook_unsigned,
}
use offimesh.Webhooks.Processing.{process_webhook_event_again}
use offimesh.Webhooks.Sweep.{IsFunding, process_pending_funding}

abbrev sum_from : ℕ → List ℕ → ℕ
sum_from n [] = n
sum_from n (x ∷ xs) = sum_from (n + x) xs

abbrev signing : Signing
signing = record {
  secret = 5;
  chars = λ s. s ∷ [];
  event_chars = λ _. 1 ∷ 2 ∷ [];
  null_text = 99;
  digest = sum_from;
}

abbrev funding : Payload
funding = record {
  is_virtual = true;
  account_ref = some 90;
  amount_kobo = some (pos 1000);
  transaction_id = some 12;
  merchant_tx_ref = none;
  response_code = some 99;
}

abbrev body : Body
body = record {
  event_type = payment_success;
  request_id = some 40;
  snake_request_id = none;
  user_id = some 3;
  wallet_id = none;
  transaction_type = some 8;
  time = some 9;
  payload = funding;
}

abbrev larger : Payload
larger = record funding { amount_kobo = some (pos 900000) }

abbrev tables : Db
tables = record {
  books = record { balances = []; entries = [] };
  tokens = [];
  users = [];
  devices = [];
  transactions = [];
  events = [];
  settlements = [];
  signals = [];
  blacklist = [];
  activities = [];
  audits = [];
  webhooks = [];
  accounts = [];
  verifications = [];
}

-- Its signature: the sum of the secret, the characters and eight colons.
abbrev genuine : Delivery
genuine = record {
  body = some body;
  signature = 5 + 3 + 40 + 3 + 12 + 8 + 9 + 7 + 464;
  timestamp = 7;
  id = 1;
}

abbrev forged : Delivery
forged = record { body = some body; signature = 3; timestamp = 7; id = 2 }

accepted : (deliver signing genuine tables).0 ≡ ok (new_event 1 40 body)
unfolding handle_webhook verify_signature build_signing_string
accepted = refl

handle_webhook_again_example :
    let db = deliver_all signing (forged ∷ genuine ∷ []) (deliver signing genuine tables).1 in
    (is_ok (handle_webhook signing (some body) 551 7 3 db).0 ≡ false)
    × ((handle_webhook signing (some body) 551 7 3 db).1 ≡ db)
handle_webhook_again_example =
    handle_webhook_again signing genuine (forged ∷ genuine ∷ []) (new_event 1 40 body) tables
      accepted body 551 7 3 refl

handle_webhook_unsigned_example :
    (handle_webhook signing (some (with_unsigned larger body)) genuine.signature 7 1 tables).0
    ≡ ok (record (new_event 1 40 body) { payload = (with_unsigned larger body).payload })
handle_webhook_unsigned_example =
    handle_webhook_unsigned signing body larger genuine.signature 7 1 (new_event 1 40 body) tables
      accepted

abbrev stored : Db
stored = record tables { webhooks = new_event 2 41 body ∷ new_event 1 40 body ∷ [] }

new_event-IsFunding : (id request_id : ℕ) → IsFunding (new_event id request_id body)
new_event-IsFunding id request_id = record {
  success = refl;
  virtual = refl;
  referenced = refl;
  with_amount = refl;
}

fetched : get_unprocessed 100 stored ≡ new_event 1 40 body ∷ new_event 2 41 body ∷ []
unfolding get_unprocessed
fetched = refl

process_pending_funding_example :
    let (r, db') = process_pending_webhooks stored in
    (r ≡ ok 0)
    × (db'.users ≡ stored.users)
    × (db'.accounts ≡ stored.accounts)
    × (db'.books ≡ stored.books)
    × All
        (λ w. process_webhook_event w.id db' ≡ (ok already_processed, db'))
        (new_event 1 40 body ∷ new_event 2 41 body ∷ [])
process_pending_funding_example =
    process_pending_funding (new_event 1 40 body ∷ new_event 2 41 body ∷ []) stored fetched
      (new_event-IsFunding 1 40, (new_event-IsFunding 2 41, tt))
      ((new_event 1 40 body, refl), ((new_event 2 41 body, refl), tt))

-- A refund, which is only logged.
abbrev refund : WebhookEvent
refund = record (new_event 3 42 body) { event_type = payout_refund }

process_webhook_event_again_example :
    let (r, db') = process_webhook_event 3 (record tables { webhooks = refund ∷ [] }) in
    ((e : Error) × (process_webhook_event 3 (record tables { webhooks = refund ∷ [] })
        ≡ (err e, record tables { webhooks = refund ∷ [] })))
    ⊎ ((s : TaskStatus) × (s' : TaskStatus) × (r ≡ ok s)
        × (process_webhook_event 3 db' ≡ (ok s', db')))
process_webhook_event_again_example =
    process_webhook_event_again 3 (record tables { webhooks = refund ∷ [] })
