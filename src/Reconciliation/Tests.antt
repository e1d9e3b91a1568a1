-- ===== src/Reconciliation/Tests.antt =====
-- A settled transaction of which the bank lists nothing.
use offimesh.Prelude.{pos, ◌≡◌, true, none, some, [], ◌∷◌}
use offimesh.Exceptions.{ok, err, attribute_error}
use offimesh.Models.{Db, Transaction, settled}
use offimesh.Reconciliation.{NombaTransaction, run_reconciliation, list_all, unmatched}
use offimesh.Reconciliation.Reports.{run_reconciliation_blind}

abbrev tx : Transaction
tx = record {
  tx_id = 5;
  payer_user_id = 1;
  payee_user_id = 2;
  amount_kobo = pos 60;
  offline_token_id = 7;
  merchant_reference = none;
  tx_status = settled;
  nomba_reference = some 800;
  nonce = 21;
  sequence_number = pos 1;
}

abbrev db : Db
db = record {
  books = record { balances = []; entries = [] };
  tokens = [];
  users = [];
  devices = [];
  transactions = tx ∷ [];
  events = [];
  settlements = [];
  signals = [];
  blacklist = [];
  activities = [];
  webhooks = [];
  accounts = [];
  verifications = [];
  audits = [];
}

abbrev listed : NombaTransaction
listed = record { transaction_id = 800; merchant_tx_ref = 5; status = 70; amount = pos 60 }

run_reconciliation_blind_example :
    (run_reconciliation (ok (listed ∷ [])) db ≡ (err attribute_error, db))
    × (run_reconciliation (ok []) db ≡ (
      ok (record {
        nomba_transactions = 0;
        local_transactions = 1;
        only_nomba = [];
        only_local = unmatched tx ∷ [];
        amounts = [];
        has_discrepancies = true;
      }),
      db,
    ))
unfolding list_all
run_reconciliation_blind_example = run_reconciliation_blind listed [] db
