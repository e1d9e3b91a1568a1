-- ===== src/Nomba/Transfers/Tests.antt =====
-- A settlement whose transfer is answered, as pending, after a refused connection.
use offimesh.Prelude.{pos, ◌≡◌, refl, true, false, none, some, [], ◌∷◌, find}
use offimesh.Exceptions.{ok, err}
use offimesh.Models.{user_active, Db, User, Transaction, verified, settled, tx_key}
use offimesh.Settlements.{
  Bank, task, get_by_tx_id, one_or_none, update_tx, transfer_taken, process_settlement,
}
use offimesh.Settlements.Calls.{opened}
use offimesh.Prelude.{ℕ, zero, suc, ◌+◌, ◌<◌, inr, Option, arith}
use offimesh.Exceptions.{Result, value_error}
use offimesh.Nomba.{default_retries, Response, Answer, responded, connect_error, Exchange}
use offimesh.Nomba.Breaker.{new_breaker}
use offimesh.Nomba.Recovery.{Answers}
use offimesh.Nomba.Access.{TokenCache, Site, unreadable}
use offimesh.Nomba.Json.{Json, text, object, end, field, data_key, get_or, unwrap}
use offimesh.Nomba.Resource.{Network}
use offimesh.Nomba.Resource.Ready.{IsReady}
use offimesh.Nomba.Transfers.{Transfer, TransferBody, answer_of}
use offimesh.Nomba.Transfers.Payment.{Wording, pay, process_settlement-pay}

abbrev payer : User
payer = record {
  id = 1;
  name = none;
  nin_verified = true;
  bvn_verified = false;
  face_verified = true;
  balance_kobo = pos 0;
  phone_hash = 31;
  phone_salt = 32;
  email = none;
  pin_hash = none;
  role = 1;
  user_status = user_active;
}

abbrev payee : User
payee = record payer { id = 2 }

abbrev tx : Transaction
tx = record {
  tx_id = 5;
  payer_user_id = 1;
  payee_user_id = 2;
  amount_kobo = pos 60;
  offline_token_id = 7;
  merchant_reference = none;
  tx_status = verified;
  nomba_reference = none;
  nonce = 21;
  sequence_number = pos 1;
}

abbrev db : Db
db = record {
  books = record { balances = []; entries = [] };
  tokens = [];
  users = payer ∷ payee ∷ [];
  devices = [];
  transactions = tx ∷ [];
  events = [];
  settlements = [];
  signals = [];
  blacklist = [];
  activities = [];
  webhooks = [];
  accounts = [];
  verifications = [];
  audits = [];
}

abbrev bank : Bank
bank = record { db = db; sent = [] }

unsettled : get_by_tx_id 5 db ≡ (ok none, db)
unfolding get_by_tx_id one_or_none
unsettled = refl

new_transfer : transfer_taken 90 900 (opened 5 90 tx none 100 db) ≡ false
unfolding update_tx
new_transfer = refl

abbrev cell : TokenCache (Option ℕ)
cell = record {
  get = λ c. c;
  setex = λ _ token _. some token;
  set = λ token _. some token;
  delete = λ _. none;
}

abbrev site : Site (Option ℕ)
site = record {
  client = record { breaker = new_breaker; sent = 0; slept = 0 };
  cache = some 9;
  fetches = 1;
  bearers = [];
}

site-IsReady : IsReady cell default_retries site
site-IsReady = record {
  token = 9;
  kept = refl;
  real = omega arith;
  fresh = record { closes = refl; empty = refl; patient = omega arith };
}

abbrev reply : Response
reply = record { status_code = 201; retry_after = none; message = 0 }

abbrev at_time : ℕ → Answer → Exchange
at_time t a = record { asked_at = t; answered_at = t + 10; answer = a; jitter = 1200 }

abbrev second_time : ℕ → Exchange
second_time zero = at_time 1000 connect_error
second_time (suc n) = at_time 2000 (responded reply)

abbrev network : Network TransferBody
network = record { endpoint = unreadable; exchanges = λ _. second_time }

abbrev wording : Wording
wording = record {
  account = record { bank_code = 14; account_number = 123456789 };
  account_name = 41;
  narration = 42;
  sender_name = 43;
}

abbrev pending : Transfer
pending = record { transfer_id = 900; status = 2; reference = 0; amount = pos 0 }

abbrev json : Response → Result Json
json _ = ok (object (field data_key (text 900) end))

abbrev validate : Json → Result Transfer
validate (text n) = ok (record pending { transfer_id = n })
validate _ = err value_error

second_time-fails : (i : ℕ) → i < 1 → ((second_time i).answer ≡ connect_error)
second_time-fails zero h = refl
second_time-fails (suc i) h = absurd (omega (arith, h))

abbrev answered : Answers default_retries second_time reply
answered = record {
  failed = 1;
  few = omega arith;
  passing = λ i h. inr (second_time-fails i h);
  answered = refl;
  succeeds = refl;
}

valid : validate (unwrap (object (field data_key (text 900) end))) ≡ ok pending
unfolding unwrap get_or
valid = refl

process_settlement-pay_example :
    let (reply', s') = pay cell default_retries json validate network tx wording site in
    let (result, b') = task (process_settlement 5 true 90 (answer_of reply') 100) bank in
    (result ≡ ok (record { nomba_reference = some 900; from_cache = false }))
    × (b'.sent ≡ (5, pos 60) ∷ [])
    × (find tx_key 5 b'.db.transactions
        ≡ some (record tx { tx_status = settled; nomba_reference = some 900 }))
    × (s'.client.sent ≡ 0 + 2)
    × (s'.fetches ≡ 1)
process_settlement-pay_example =
    process_settlement-pay cell default_retries json validate network 5 90 100 bank tx payee payer
      none wording reply (object (field data_key (text 900) end)) pending site refl refl unsettled
      refl refl refl new_transfer answered refl valid site-IsReady
