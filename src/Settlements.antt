-- ===== src/Settlements.antt =====
-- app/services/settlement_service.py with app/repositories/settlement_repository.py and the status
-- updates of app/repositories/transaction_repository.py. The answers of the advisory lock and of
-- the transfer client are arguments of the call; `sent` records the transfers that the client was
-- asked for, which no rollback undoes.
pub mod Calls
pub mod Repeats
pub mod Webhooks
pub mod Worker
pub mod Sweeps
pub mod Closed
pub mod Asked
pub mod History
mod Tests
use offimesh.Prelude.{
  ℕ, suc, ℤ, Bool, true, false, not, ◌&&◌, Option, none, some, List, [], ◌∷◌, ◌==◌, if◌then◌else◌,
  find, replace, filter_by, is_some, ltb, length,
}
use offimesh.Exceptions.{
  Action, Result, ok, err, pure, raise, raise_if, gets, or_raise, modify, ◌>>=◌, ◌>>◌, not_found,
  settlement_already_processed, settlement_error, multiple_results_found, session_aborted,
}
use offimesh.Models.{
  Db, audit, user_key, Transaction, TxStatus, verified, settling, settled, settlement_failed,
  other_tx_status, tx_key, EventType, settlement_completed, settlement_failed_event,
  settlement_completed_webhook, settlement_failed_webhook, Settlement, processing, completed,
  failed, settlement_key, settlement_completed_audit, settlement_failed_audit,
}

-- The database session and the transfers asked of Nomba: transaction and amount.
pub record Bank : Type 0 where
  pub db : Db
  pub sent : List (ℕ × ℤ)

abbrev pub on_db : {A : Type 0} → Action Db A → Action Bank A
on_db m b = let (r, db) = m b.db in (r, record b { db = db })

abbrev pub close_task : {A : Type 0} → Bank → Result A × Bank → Result A × Bank
close_task b (ok a, b') = (ok a, b')
close_task b (err e, b') = (err e, record b' { db = b.db })

-- `get_session_context`: commit, or roll back and raise again.
abbrev pub task : {A : Type 0} → Action Bank A → Action Bank A
task m b = close_task b (m b)

-- `scalar_one_or_none`.
unfoldable pub one_or_none : List Settlement → Action Db (Option Settlement)
one_or_none [] = pure none
one_or_none (s ∷ []) = pure (some s)
one_or_none (_ ∷ _ ∷ _) = raise multiple_results_found

unfoldable pub get_by_tx_id : ℕ → Action Db (Option Settlement)
get_by_tx_id tx_id db = one_or_none (filter_by (λ s. s.tx_id == tx_id) db.settlements) db

-- An `update(Transaction).where(tx_id == ...)`.
unfoldable pub update_tx : ℕ → (Transaction → Transaction) → Db → Db
update_tx tx_id change db = elim (find tx_key tx_id db.transactions) [
  | none ↦ db
  | some tx ↦ record db { transactions = replace tx_key (change tx) db.transactions }
]

abbrev pub update_status : ℕ → TxStatus → Db → Db
update_status tx_id status = update_tx tx_id (λ tx. record tx { tx_status = status })

abbrev pub mark_settled : ℕ → ℕ → Db → Db
mark_settled tx_id reference =
    update_tx tx_id (λ tx. record tx { tx_status = settled; nomba_reference = some reference })

unfoldable pub update_settlement : ℕ → (Settlement → Settlement) → Db → Db
update_settlement id change db = elim (find settlement_key id db.settlements) [
  | none ↦ db
  | some s ↦ record db { settlements = replace settlement_key (change s) db.settlements }
]

abbrev has_transfer : ℕ → Settlement → Bool
has_transfer transfer_id s = elim s.nomba_transfer_id [ some t ↦ t == transfer_id | none ↦ false ]

abbrev pub transfer_taken : ℕ → ℕ → Db → Bool
transfer_taken id transfer_id db =
    ltb 0 (length (filter_by (λ s. has_transfer transfer_id s && not (s.id == id)) db.settlements))

-- `nomba_transfer_id` is unique.
unfoldable pub mark_completed : ℕ → ℕ → Action Db (Unit {0})
mark_completed id transfer_id = do
  taken ← gets (transfer_taken id transfer_id)
  raise_if taken session_aborted
  modify (
      update_settlement id
        (λ s. record s { settlement_status = completed; nomba_transfer_id = some transfer_id }))

abbrev pub mark_failed : ℕ → Option ℕ → Db → Db
mark_failed id error_code =
    update_settlement id (λ s. record s { settlement_status = failed; error_code = error_code })

abbrev pub add_event : ℕ → EventType → Db → Db
add_event tx_id event_type db = record db {
  events = (record { tx_id = tx_id; event_type = event_type }) ∷ db.events;
}

pub record SettlementReply : Type 0 where
  pub nomba_reference : Option ℕ
  pub from_cache : Bool

-- What `initiate_bank_transfer` does: it answers a transfer id or raises.
pub data TransferAnswer : Type 0 where
  transferred : ℕ → TransferAnswer
  transfer_raised : TransferAnswer

abbrev pub require_verified : TxStatus → Action Bank (Unit {0})
require_verified verified = pure tt
require_verified settled = raise settlement_already_processed
require_verified settling = raise settlement_error
require_verified settlement_failed = raise settlement_error
require_verified (other_tx_status _) = raise settlement_error

abbrev pub is_completed : Option Settlement → Bool
is_completed none = false
is_completed (some s) = elim s.settlement_status [ completed ↦ true | _ ↦ false ]

abbrev pub attempts_of : Option Settlement → ℕ
attempts_of none = 1
attempts_of (some s) = suc s.attempts

abbrev pub reference_of : Option Settlement → Option ℕ
reference_of none = none
reference_of (some s) = s.nomba_transfer_id

abbrev pub new_settlement : ℕ → Transaction → Option Settlement → ℕ → Settlement
new_settlement id tx existing now = record {
  id = id;
  tx_id = tx.tx_id;
  nomba_transfer_id = none;
  amount_kobo = tx.amount_kobo;
  settlement_status = processing;
  attempts = attempts_of existing;
  last_attempt_at = now;
  error_code = none;
}

-- "FAILED", the one error code that the service writes itself.
abbrev pub failed_code : ℕ
failed_code = 1

-- The `try` block and its handler. A unique violation leaves the session aborted, so that the
-- handler's own statements raise.
unfoldable pub run_transfer : ℕ → ℕ → TransferAnswer → Action Bank SettlementReply
run_transfer tx_id id (transferred transfer_id) = do
  on_db (mark_completed id transfer_id)
  on_db (modify (mark_settled tx_id transfer_id))
  on_db (modify (add_event tx_id settlement_completed))
  on_db (audit settlement_completed_audit tx_id)
  pure (record { nomba_reference = some transfer_id; from_cache = false })
run_transfer tx_id id transfer_raised = do
  on_db (modify (mark_failed id (some failed_code)))
  on_db (modify (update_status tx_id settlement_failed))
  on_db (modify (add_event tx_id settlement_failed_event))
  on_db (audit settlement_failed_audit tx_id)
  raise settlement_error

unfoldable pub settle :
    ℕ
    → Transaction
    → Option Settlement
    → Bool
    → ℕ
    → TransferAnswer
    → ℕ
    → Action Bank SettlementReply
settle tx_id tx existing lock_acquired id answer now = do
  raise_if (not lock_acquired) settlement_error
  payee ← on_db (gets (λ db. find user_key tx.payee_user_id db.users))
  or_raise payee not_found
  payer ← on_db (gets (λ db. find user_key tx.payer_user_id db.users))
  or_raise payer not_found
  on_db (
      modify (λ db. record db { settlements = new_settlement id tx existing now ∷ db.settlements }))
  on_db (modify (update_status tx_id settling))
  modify (λ b. record b { sent = (tx_id, tx.amount_kobo) ∷ b.sent })
  run_transfer tx_id id answer

unfoldable pub process_settlement : ℕ → Bool → ℕ → TransferAnswer → ℕ → Action Bank SettlementReply
process_settlement tx_id lock_acquired id answer now = do
  found ← on_db (gets (λ db. find tx_key tx_id db.transactions))
  tx ← or_raise found not_found
  require_verified tx.tx_status
  existing ← on_db (get_by_tx_id tx_id)
  if is_completed existing
      then pure (record { nomba_reference = reference_of existing; from_cache = true })
      else settle tx_id tx existing lock_acquired id answer now

-- The update of the settlement row by a webhook, if there is one.
unfoldable pub with_settlement :
    Option Settlement → (ℕ → Action Db (Unit {0})) → Action Db (Unit {0})
with_settlement none f = pure tt
with_settlement (some s) f = f s.id

unfoldable pub process_transfer_success_webhook : ℕ → ℕ → Action Db (Unit {0})
process_transfer_success_webhook tx_id transfer_id = do
  known ← gets (λ db. is_some (find tx_key tx_id db.transactions))
  if not known then pure tt else do
    modify (mark_settled tx_id transfer_id)
    settlement ← get_by_tx_id tx_id
    with_settlement settlement (λ id. mark_completed id transfer_id)
    modify (add_event tx_id settlement_completed_webhook)

unfoldable pub process_transfer_failed_webhook : ℕ → Option ℕ → Action Db (Unit {0})
process_transfer_failed_webhook tx_id error_code = do
  known ← gets (λ db. is_some (find tx_key tx_id db.transactions))
  if not known then pure tt else do
    modify (update_status tx_id settlement_failed)
    settlement ← get_by_tx_id tx_id
    with_settlement settlement (λ id. modify (mark_failed id error_code))
    modify (add_event tx_id settlement_failed_webhook)
