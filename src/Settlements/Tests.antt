-- ===== src/Settlements/Tests.antt =====
-- A verified transaction of 60 between two users.
use offimesh.Prelude.{pos, Bool, ◌≡◌, refl, true, false, none, some, [], ◌∷◌, find}
use offimesh.Exceptions.{ok, err, settlement_error}
use offimesh.Models.{user_active, Db, User, Transaction, verified, settled, tx_key}
use offimesh.Settlements.{
  Bank, get_by_tx_id, one_or_none, update_tx, transferred, transfer_raised, transfer_taken,
  process_settlement,
}
use offimesh.Settlements.Calls.{opened}
use offimesh.Settlements.Webhooks.{failed_webhook_reopens}
use offimesh.Settlements.{process_transfer_failed_webhook}
use offimesh.Models.{Settlement, settlement_failed, completed, failed}
use offimesh.Settlements.Worker.{
  Attempt, get_pending_retry, sort_by_time, insert_by_time, first_rows,
}
use offimesh.Settlements.Repeats.{process_settlement_task, asked, process_settlement_task_failed}

abbrev payer : User
payer = record {
  id = 1;
  name = none;
  nin_verified = true;
  bvn_verified = false;
  face_verified = true;
  balance_kobo = pos 0;
  phone_hash = 31;
  phone_salt = 32;
  email = none;
  pin_hash = none;
  role = 1;
  user_status = user_active;
}

abbrev payee : User
payee = record payer { id = 2 }

abbrev tx : Transaction
tx = record {
  tx_id = 5;
  payer_user_id = 1;
  payee_user_id = 2;
  amount_kobo = pos 60;
  offline_token_id = 7;
  merchant_reference = none;
  tx_status = verified;
  nomba_reference = none;
  nonce = 21;
  sequence_number = pos 1;
}

abbrev db : Db
db = record {
  books = record { balances = []; entries = [] };
  tokens = [];
  users = payer ∷ payee ∷ [];
  devices = [];
  transactions = tx ∷ [];
  events = [];
  settlements = [];
  signals = [];
  blacklist = [];
  activities = [];
  webhooks = [];
  accounts = [];
  verifications = [];
  audits = [];
}

abbrev bank : Bank
bank = record { db = db; sent = [] }

unsettled : get_by_tx_id 5 db ≡ (ok none, db)
unfolding get_by_tx_id one_or_none
unsettled = refl

new_transfer : transfer_taken 90 900 (opened 5 90 tx none 100 db) ≡ false
unfolding update_tx
new_transfer = refl

-- The lock is taken at the second run of four.
abbrev failing : Bool → Attempt
failing lock = record { lock_acquired = lock; id = 90; answer = transfer_raised; now = 100 }

process_settlement_task_failed_example :
    process_settlement_task 5 (failing true) (failing false ∷ failing true ∷ failing true ∷ []) bank
    ≡ (err settlement_error, record bank { sent = (5, pos 60) ∷ (5, pos 60) ∷ (5, pos 60) ∷ [] })
unfolding asked
process_settlement_task_failed_example =
    process_settlement_task_failed 5 (failing true)
      (failing false ∷ failing true ∷ failing true ∷ []) bank tx payee payer none
      (refl, (refl, (refl, (refl, tt)))) refl refl unsettled refl refl refl

abbrev settled_tx : Transaction
settled_tx = record tx { tx_status = settled; nomba_reference = some 900 }

abbrev settled_row : Settlement
settled_row = record {
  id = 90;
  tx_id = 5;
  nomba_transfer_id = some 900;
  amount_kobo = pos 60;
  settlement_status = completed;
  attempts = 1;
  last_attempt_at = 100;
  error_code = none;
}

abbrev settled_db : Db
settled_db = record db { transactions = settled_tx ∷ []; settlements = settled_row ∷ [] }

one_row : get_by_tx_id 5 settled_db ≡ (ok (some settled_row), settled_db)
unfolding get_by_tx_id one_or_none
one_row = refl

failed_webhook_reopens_example :
    let (r, db') = process_transfer_failed_webhook 5 (some 3) settled_db in
    let b : Bank = record { db = db'; sent = [] } in
    (r ≡ ok tt)
    × (find tx_key 5 db'.transactions
        ≡ some (record tx { tx_status = settlement_failed; nomba_reference = some 900 }))
    × (process_settlement 5 true 92 (transferred 902) 300 b ≡ (err settlement_error, b))
failed_webhook_reopens_example =
    failed_webhook_reopens 5 92 300 (some 3) true (transferred 902) [] settled_db settled_tx
      (some settled_row) refl one_row

-- A transaction whose transfer failed.
abbrev failed_row : Settlement
failed_row = record {
  id = 90;
  tx_id = 5;
  nomba_transfer_id = none;
  amount_kobo = pos 60;
  settlement_status = failed;
  attempts = 1;
  last_attempt_at = 100;
  error_code = some 1;
}

abbrev failed_bank : Bank
failed_bank = record {
  db = record db {
    transactions = (record tx { tx_status = settlement_failed }) ∷ [];
    settlements = failed_row ∷ [];
  };
  sent = [];
}

abbrev good_day : Attempt
good_day = record { lock_acquired = true; id = 91; answer = transferred 901; now = 400 }

fetched : get_pending_retry 3 50 failed_bank.db ≡ failed_row ∷ []
unfolding get_pending_retry sort_by_time insert_by_time first_rows
fetched = refl
