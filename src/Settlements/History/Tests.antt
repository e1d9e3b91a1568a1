-- ===== src/Settlements/History/Tests.antt =====
-- A settled transaction of 60.
use offimesh.Prelude.{false, ℕ, pos, ◌≡◌, refl, true, none, some, List, [], ◌∷◌}
use offimesh.Exceptions.{ok}
use offimesh.Models.{Transaction, settled}
use offimesh.Sync.Cache.{Redis}
use offimesh.Settlements.{Bank, transferred, transfer_raised}
use offimesh.Settlements.Worker.{Attempt}
use offimesh.Settlements.Closed.{is_closed, sent_for}
use offimesh.Settlements.History.{
  BankCall, settles, retries, sweeps, succeeds, fails, syncs, adopts, perform_all,
  perform_all-sent_for,
}

abbrev tx : Transaction
tx = record {
  tx_id = 5;
  payer_user_id = 1;
  payee_user_id = 2;
  amount_kobo = pos 60;
  offline_token_id = 7;
  merchant_reference = none;
  tx_status = settled;
  nomba_reference = some 800;
  nonce = 21;
  sequence_number = pos 1;
}

abbrev bank : Bank
bank = record {
  db = record {
    books = record { balances = []; entries = [] };
    tokens = [];
    users = [];
    devices = [];
    transactions = tx ∷ [];
    events = [];
    settlements = [];
    signals = [];
    blacklist = [];
    activities = [];
    webhooks = [];
    accounts = [];
    verifications = [];
    audits = [];
  };
  sent = (5, pos 60) ∷ [];
}

-- A cache that forgets.
abbrev redis : Redis (Unit {0})
redis = record {
  setnx = λ _ c. (true, c);
  expire = λ _ _ c. c;
  get = λ _ c. none;
  setex = λ _ _ _ c. c;
}

abbrev attempts : ℕ → Attempt
attempts k = record { lock_acquired = true; id = k; answer = transferred k; now = k }

abbrev failing : Attempt
failing = record { lock_acquired = false; id = 41; answer = transfer_raised; now = 11 }

-- A late failure, a settlement that is asked for again, a sweep, a batch and a status of the bank.
abbrev calls : List (BankCall (Unit {0}))
calls =
    fails 5 none
    ∷ settles 5 true 40 (transferred 900) 10
    ∷ retries 5 failing (attempts 901 ∷ [])
    ∷ sweeps attempts
    ∷ succeeds 5 902
    ∷ syncs 1 3 [] 12 tt
    ∷ adopts 5 (
        ok (
          some
            (record { transaction_id = 902; merchant_tx_ref = 5; status = 70; amount = pos 60 })))
    ∷ []

perform_all-sent_for_example :
    (is_closed 5 (perform_all redis calls bank).db ≡ true)
    × (sent_for 5 (perform_all redis calls bank).sent ≡ (5, pos 60) ∷ [])
perform_all-sent_for_example = perform_all-sent_for redis 5 calls bank refl
