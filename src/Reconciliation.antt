-- ===== src/Reconciliation.antt =====
-- `run_reconciliation` and `sync_transaction_status` of app/workers/reconciliation_worker.py. What the
-- client app/integrations/nomba/transactions.py answers, or the exception that it raises, is an
-- argument. The lookup by `Session` order is the table's, newest first.
pub mod Reports
mod Tests
use offimesh.Prelude.{
  ℕ, zero, suc, ◌+◌, ◌++◌, ℤ, pos_part, neg_part, Bool, true, false, not, ◌&&◌, ◌||◌, Option, none,
  some, List, [], ◌∷◌, ◌==◌, if◌then◌else◌, find, filter_by, is_some, length, take,
}
use offimesh.Exceptions.{
  Action, Result, ok, err, pure, raise, returned, gets, modify, ◌>>=◌, ◌>>◌, attribute_error,
}
use offimesh.Models.{
  Db, Transaction, TxStatus, verified, settling, settled, settlement_failed, other_tx_status,
  tx_key,
}
use offimesh.Settlements.{update_status}

-- Strings of the bank. Its validator has put the status in upper case, so that it is none of the
-- statuses that the services write.
pub record NombaTransaction : Type 0 where
  pub transaction_id : ℕ
  pub merchant_tx_ref : ℕ
  pub status : ℕ
  pub amount : ℤ

-- `nomba_by_ref`: in the order in which the references came first, with the last of each.
abbrev pub Lookup : Type 0
Lookup = List (ℕ × NombaTransaction)

-- The loop reads `tx.reference`, which the response of the bank does not have: its field is
-- `merchant_tx_ref`.
unfoldable pub build_lookup : List NombaTransaction → Action Db Lookup
build_lookup [] = pure []
build_lookup (tx ∷ txs) = raise attribute_error

-- `list_all(page=1, page_size=1000)`
unfoldable pub list_all : Db → List Transaction
list_all db = take 1000 db.transactions

abbrev pub by_ref : ℕ → Lookup → Option NombaTransaction
by_ref k [] = none
by_ref k ((j, tx) ∷ rest) = if j == k then some tx else by_ref k rest

-- An entry of the bank's that the local table lacks.
pub record MissingInLocal : Type 0 where
  pub tx_id : ℕ
  pub nomba_id : ℕ
  pub amount : ℤ
  pub status : ℕ

pub record MissingInNomba : Type 0 where
  pub tx_id : ℕ
  pub status : TxStatus
  pub amount : ℤ

pub record AmountMismatch : Type 0 where
  pub tx_id : ℕ
  pub local_amount : ℤ
  pub nomba_amount : ℤ

unfoldable pub missing_in_local : List Transaction → Lookup → List MissingInLocal
missing_in_local locals [] = []
missing_in_local locals ((ref, tx) ∷ rest) =
    if is_some (find tx_key ref locals)
    then missing_in_local locals rest
    else (record {
      tx_id = ref;
      nomba_id = tx.transaction_id;
      amount = tx.amount;
      status = tx.status;
    })
      ∷ missing_in_local locals rest

-- `status in ("verified", "settling")`
abbrev pub is_pending : TxStatus → Bool
is_pending verified = true
is_pending settling = true
is_pending settled = false
is_pending settlement_failed = false
is_pending (other_tx_status _) = false

abbrev pub unmatched : Transaction → MissingInNomba
unmatched tx = record { tx_id = tx.tx_id; status = tx.tx_status; amount = tx.amount_kobo }

unfoldable pub missing_in_nomba : Lookup → List Transaction → List MissingInNomba
missing_in_nomba lookup [] = []
missing_in_nomba lookup (tx ∷ txs) =
    if not (is_some (by_ref tx.tx_id lookup)) && not (is_pending tx.tx_status)
    then unmatched tx ∷ missing_in_nomba lookup txs
    else missing_in_nomba lookup txs

abbrev eq_ℤ : ℤ → ℤ → Bool
eq_ℤ a b = pos_part a + neg_part b == pos_part b + neg_part a

abbrev pub differing : Transaction → Option NombaTransaction → List AmountMismatch
differing tx none = []
differing tx (some n) =
    if eq_ℤ tx.amount_kobo n.amount
    then []
    else (record { tx_id = tx.tx_id; local_amount = tx.amount_kobo; nomba_amount = n.amount }) ∷ []

unfoldable pub amount_mismatches : Lookup → List Transaction → List AmountMismatch
amount_mismatches lookup [] = []
amount_mismatches lookup (tx ∷ txs) =
    differing tx (by_ref tx.tx_id lookup) ++ amount_mismatches lookup txs

abbrev pub is_empty {ℓ} : {A : Type ℓ} → List A → Bool
is_empty [] = true
is_empty (_ ∷ _) = false

-- The list of status mismatches, which nothing fills, is left out.
pub record Report : Type 0 where
  pub nomba_transactions : ℕ
  pub local_transactions : ℕ
  pub only_nomba : List MissingInLocal
  pub only_local : List MissingInNomba
  pub amounts : List AmountMismatch
  pub has_discrepancies : Bool

unfoldable pub diff : List NombaTransaction → Lookup → List Transaction → Report
diff nomba_txs lookup locals =
    let only_nomba = missing_in_local locals lookup in
    let only_local = missing_in_nomba lookup locals in
    let amounts = amount_mismatches lookup locals in
    record {
      nomba_transactions = length nomba_txs;
      local_transactions = length locals;
      only_nomba = only_nomba;
      only_local = only_local;
      amounts = amounts;
      has_discrepancies = not (is_empty only_nomba && is_empty only_local && is_empty amounts);
    }

unfoldable pub run_reconciliation : Result (List NombaTransaction) → Action Db Report
run_reconciliation answer = do
  nomba_txs ← returned answer
  lookup ← build_lookup nomba_txs
  locals ← gets list_all
  pure (diff nomba_txs lookup locals)

abbrev pub same_status : TxStatus → ℕ → Bool
same_status (other_tx_status s) status = s == status
same_status _ status = false

pub data SyncReply : Type 0 where
  unknown_to_nomba : SyncReply
  unknown_here : SyncReply
  -- The status of the local row, which the update has renewed, and that of the bank.
  synced : TxStatus → ℕ → SyncReply

unfoldable pub adopt_status : ℕ → Transaction → NombaTransaction → Action Db SyncReply
adopt_status tx_id tx n = do
  modify (
      if same_status tx.tx_status n.status
      then (λ db. db)
      else update_status tx_id (other_tx_status n.status))
  pure (synced (other_tx_status n.status) n.status)

unfoldable pub sync_transaction_status : ℕ → Result (Option NombaTransaction) → Action Db SyncReply
sync_transaction_status tx_id answer = do
  found ← returned answer
  elim found [
    | none ↦ pure unknown_to_nomba
    | some n ↦
        (gets (λ db. find tx_key tx_id db.transactions) >>= λ local. elim local [
          | none ↦ pure unknown_here
          | some tx ↦ adopt_status tx_id tx n
        ])
  ]
