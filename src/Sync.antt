-- ===== src/Sync.antt =====
-- app/services/transaction_service.py (`sync_batch`) with the helpers of app/core/redis.py and the
-- repositories' methods that it calls. Redis is a parameter. What it stores survives a rollback of
-- the database session. Identifiers in a request are well-formed; signatures are stored unchecked.
pub mod Cache
pub mod Requests
pub mod Steps
pub mod Limits
pub mod Batches
pub mod Counts
pub mod Charges
mod Tests
use offimesh.Prelude.{
  ℕ, suc, ◌+◌, ℤ, pos, ◌+ℤ◌, ltb_ℤ, leb_ℤ, is_zero, ltb, Bool, true, false, not, Option, none, some,
  List, [], ◌∷◌, ◌==◌, if◌then◌else◌, find, is_some, length,
}
use offimesh.Exceptions.{
  Action, pure, raise, raise_if, gets, or_raise, modify, ◌>>=◌, ◌>>◌, not_found, integrity_error,
  batch_limit_exceeded, attribute_error,
}
use offimesh.Models.{
  Db, Device, device_key, user_key, OfflineToken, TokenStatus, unused, is_expired, logged,
  Transaction, verified, tx_key, transaction_verified, transaction_created, batch_synced,
}
use offimesh.Tokens.{is_active, save_token}
use offimesh.Sync.Requests.{
  TxData, Field, tx_id_field, token_id_field, payer_user_id_field, payee_user_id_field,
  amount_kobo_field, nonce_field, sequence_number_field, initiated_at_field, payer_signature_field,
  merchant_signature_field, payload_hash_field, Reason, missing_field, token_not_found,
  token_status, token_has_expired, insufficient_token_limit, payer_not_found, payee_not_found,
  payer_device_not_found, replay_detected, stale_sequence, Outcome, accepted, duplicate, rejected,
  Request, Checked, lacking, complete, required, BatchReply, count_accepted, count_rejected,
}
use offimesh.Sync.Cache.{
  Redis, World, on_db, check_and_store_nonce, get_last_sequence, set_last_sequence,
}

abbrev pub public_key : OfflineToken → ℕ
public_key t = elim t.token_id [ some n ↦ n | none ↦ 0 ]

abbrev pub nonce_of : Transaction → ℕ
nonce_of t = t.nonce

abbrev pub new_transaction : Request → OfflineToken → Transaction
new_transaction r token = record {
  tx_id = r.tx_id;
  payer_user_id = r.payer_user_id;
  payee_user_id = r.payee_user_id;
  amount_kobo = r.amount_kobo;
  offline_token_id = token.id;
  merchant_reference = r.merchant_reference;
  tx_status = verified;
  nomba_reference = none;
  nonce = r.nonce;
  sequence_number = r.sequence_number;
}

abbrev pub charged_token : Request → OfflineToken → OfflineToken
charged_token r token = record token { amount_used_kobo = token.amount_used_kobo +ℤ r.amount_kobo }

-- The flush of `tx_repo.create`, under the unique constraints of the table.
unfoldable pub create_transaction : Transaction → Action Db (Unit {0})
create_transaction tx = do
  taken ← gets (λ db. is_some (find tx_key tx.tx_id db.transactions))
  raise_if taken integrity_error
  used ← gets (λ db. is_some (find nonce_of tx.nonce db.transactions))
  raise_if used integrity_error
  modify (λ db. record db { transactions = tx ∷ db.transactions })

-- `increment_usage`, on the row that the validation read, then the event and the audit log.
unfoldable pub charge : Request → OfflineToken → Db → Db
charge r token db =
    let saved = save_token (charged_token r token) db in
    logged transaction_created r.tx_id (record saved {
      events = (record { tx_id = r.tx_id; event_type = transaction_verified }) ∷ saved.events;
    })

module _ {C : Type 0} (redis : Redis C) where
  unfoldable pub accept : Request → OfflineToken → ℕ → Action (World C) Outcome
  accept r token payer_device_id = do
    on_db (create_transaction (new_transaction r token))
    set_last_sequence redis payer_device_id r.token_id r.sequence_number
    on_db (modify (charge r token))
    pure accepted

  abbrev pub is_stale : Option ℤ → ℤ → Bool
  is_stale none seq = false
  is_stale (some last) seq = leb_ℤ seq last

  unfoldable pub check_replay : Request → OfflineToken → ℕ → Action (World C) Outcome
  check_replay r token payer_device_id = do
    fresh ← check_and_store_nonce redis r.nonce
    if fresh
        then (get_last_sequence redis payer_device_id r.token_id >>= (λ last.
            if is_stale last r.sequence_number
            then pure (rejected stale_sequence)
            else accept r token payer_device_id))
        else pure (rejected replay_detected)

  -- Without `payer_device_id` the code passes a `UUID` object to `uuid.UUID`, which raises.
  unfoldable pub check_device : Request → OfflineToken → Action (World C) Outcome
  check_device r token = do
    wanted ← or_raise r.payer_device_id attribute_error
    found ← on_db (gets (λ db. find device_key wanted db.devices))
    elim found [
      | none ↦ pure (rejected payer_device_not_found)
      | some device ↦ check_replay r token device.id
    ]

  unfoldable pub check_parties : Request → OfflineToken → Action (World C) Outcome
  check_parties r token = do
    payer ← on_db (gets (λ db. is_some (find user_key r.payer_user_id db.users)))
    payee ← on_db (gets (λ db. is_some (find user_key r.payee_user_id db.users)))
    if not payer
        then pure (rejected payer_not_found)
        else if not payee
        then pure (rejected payee_not_found)
        else check_device r token

  unfoldable pub check_active : Request → OfflineToken → ℕ → Action (World C) Outcome
  check_active r token now = do
    dead ← is_expired token now
    if dead
        then pure (rejected token_has_expired)
        else if ltb_ℤ (unused token) r.amount_kobo
        then pure (rejected insufficient_token_limit)
        else check_parties r token

  unfoldable pub check_token : Request → ℕ → Action (World C) Outcome
  check_token r now = do
    found ← on_db (gets (λ db. find public_key r.token_id db.tokens))
    elim found [
      | none ↦ pure (rejected token_not_found)
      | some token ↦
          if is_active token.status
          then check_active r token now
          else pure (rejected (token_status token.status))
    ]

  abbrev pub exists_by_tx_id : Option ℕ → Db → Bool
  exists_by_tx_id none db = false
  exists_by_tx_id (some tx_id) db = is_some (find tx_key tx_id db.transactions)

  unfoldable pub process_single_transaction : TxData → ℕ → Action (World C) Outcome
  process_single_transaction tx now = do
    known ← on_db (gets (exists_by_tx_id tx.tx_id))
    if known then pure duplicate else elim (required tx) [
      | lacking field ↦ pure (rejected (missing_field field))
      | complete r ↦ check_token r now
    ]

  unfoldable pub process_all : List TxData → ℕ → Action (World C) (List Outcome)
  process_all [] now = pure []
  process_all (tx ∷ txs) now = do
    outcome ← process_single_transaction tx now
    rest ← process_all txs now
    pure (outcome ∷ rest)

  unfoldable pub sync_batch : ℕ → ℕ → List TxData → ℕ → Action (World C) BatchReply
  sync_batch batch_id device_id transactions now = do
    raise_if (ltb 100 (length transactions)) (batch_limit_exceeded (length transactions) 100)
    found ← on_db (gets (λ db. find device_key device_id db.devices))
    or_raise found not_found
    results ← process_all transactions now
    on_db (modify (logged batch_synced batch_id))
    pure (record {
      processed = length transactions;
      accepted_count = count_accepted results;
      rejected_count = count_rejected results;
      results = results;
    })
