-- ===== src/Sync/Requests.antt =====
-- The entries of a batch, the checks of their fields and the outcomes, as in `sync_batch` and
-- `_process_single_transaction` of app/services/transaction_service.py.
use offimesh.Prelude.{ℕ, suc, ℤ, is_zero, Option, none, some, List, [], ◌∷◌, ◌==◌, if◌then◌else◌}
use offimesh.Models.{TokenStatus}

-- One entry of the batch; a missing key is `none`.
pub record TxData : Type 0 where
  pub tx_id : Option ℕ
  pub token_id : Option ℕ
  pub payer_user_id : Option ℕ
  pub payee_user_id : Option ℕ
  pub amount_kobo : Option ℤ
  pub nonce : Option ℕ
  pub sequence_number : Option ℤ
  pub initiated_at : Option ℕ
  pub payer_signature : Option ℕ
  pub merchant_signature : Option ℕ
  pub payload_hash : Option ℕ
  pub payer_device_id : Option ℕ
  pub merchant_reference : Option ℕ

pub data Field : Type 0 where
  tx_id_field token_id_field payer_user_id_field payee_user_id_field amount_kobo_field : Field
  nonce_field sequence_number_field initiated_at_field payer_signature_field : Field
  merchant_signature_field payload_hash_field : Field

pub data Reason : Type 0 where
  missing_field : Field → Reason
  token_not_found : Reason
  token_status : TokenStatus → Reason
  token_has_expired insufficient_token_limit payer_not_found payee_not_found : Reason
  payer_device_not_found replay_detected stale_sequence : Reason

pub data Outcome : Type 0 where
  accepted duplicate : Outcome
  rejected : Reason → Outcome

-- The values of an entry that has them all.
pub record Request : Type 0 where
  pub tx_id : ℕ
  pub token_id : ℕ
  pub payer_user_id : ℕ
  pub payee_user_id : ℕ
  pub amount_kobo : ℤ
  pub nonce : ℕ
  pub sequence_number : ℤ
  pub payer_device_id : Option ℕ
  pub merchant_reference : Option ℕ

pub data Checked : Type 0 where
  lacking : Field → Checked
  complete : Request → Checked

-- `not tx_data.get(field)`: missing, empty and zero are the same.
abbrev given : Option ℕ → Field → (ℕ → Checked) → Checked
given none field k = lacking field
given (some n) field k = if n == 0 then lacking field else k n

abbrev given_ℤ : Option ℤ → Field → (ℤ → Checked) → Checked
given_ℤ none field k = lacking field
given_ℤ (some n) field k = if is_zero n then lacking field else k n

unfoldable pub required : TxData → Checked
required tx = given tx.tx_id tx_id_field (λ tx_id. given tx.token_id token_id_field (λ token_id.
    given tx.payer_user_id payer_user_id_field (λ payer_user_id.
      given tx.payee_user_id payee_user_id_field (λ payee_user_id.
        given_ℤ tx.amount_kobo amount_kobo_field (λ amount_kobo.
          given tx.nonce nonce_field (λ nonce.
            given_ℤ tx.sequence_number sequence_number_field (λ sequence_number.
              given tx.initiated_at initiated_at_field (λ _.
                given tx.payer_signature payer_signature_field (λ _.
                  given tx.merchant_signature merchant_signature_field (λ _.
                    given tx.payload_hash payload_hash_field (λ _. complete (record {
                      tx_id = tx_id;
                      token_id = token_id;
                      payer_user_id = payer_user_id;
                      payee_user_id = payee_user_id;
                      amount_kobo = amount_kobo;
                      nonce = nonce;
                      sequence_number = sequence_number;
                      payer_device_id = tx.payer_device_id;
                      merchant_reference = tx.merchant_reference;
                    }))))))))))))

pub record BatchReply : Type 0 where
  pub processed : ℕ
  pub accepted_count : ℕ
  pub rejected_count : ℕ
  pub results : List Outcome

unfoldable pub count_accepted : List Outcome → ℕ
count_accepted [] = 0
count_accepted (accepted ∷ rs) = suc (count_accepted rs)
count_accepted (duplicate ∷ rs) = count_accepted rs
count_accepted (rejected _ ∷ rs) = count_accepted rs

unfoldable pub count_rejected : List Outcome → ℕ
count_rejected [] = 0
count_rejected (accepted ∷ rs) = count_rejected rs
count_rejected (duplicate ∷ rs) = count_rejected rs
count_rejected (rejected _ ∷ rs) = suc (count_rejected rs)
