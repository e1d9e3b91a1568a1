-- ===== src/Models/Payment.antt =====
-- app/models/transaction.py and app/models/settlement.py
use offimesh.Prelude.{ℕ, ℤ, Option}

-- `other_tx_status` stands for any other string that the column may hold.
pub data TxStatus : Type 0 where
  verified settling settled settlement_failed : TxStatus
  other_tx_status : ℕ → TxStatus

pub record Transaction : Type 0 where
  pub tx_id : ℕ
  pub payer_user_id : ℕ
  pub payee_user_id : ℕ
  pub amount_kobo : ℤ
  pub offline_token_id : ℕ
  pub merchant_reference : Option ℕ
  pub tx_status : TxStatus
  pub nomba_reference : Option ℕ
  pub nonce : ℕ
  pub sequence_number : ℤ

pub data EventType : Type 0 where
  transaction_verified settlement_completed settlement_failed_event : EventType
  settlement_completed_webhook settlement_failed_webhook : EventType

pub record TransactionEvent : Type 0 where
  pub tx_id : ℕ
  pub event_type : EventType

pub data SettlementStatus : Type 0 where
  processing completed failed : SettlementStatus

pub record Settlement : Type 0 where
  pub id : ℕ
  pub tx_id : ℕ
  pub nomba_transfer_id : Option ℕ
  pub amount_kobo : ℤ
  pub settlement_status : SettlementStatus
  pub attempts : ℕ
  pub last_attempt_at : ℕ
  pub error_code : Option ℕ

abbrev pub tx_key : Transaction → ℕ
tx_key t = t.tx_id

abbrev pub settlement_key : Settlement → ℕ
settlement_key s = s.id
