-- ===== src/Nomba/Transfers.antt =====
-- app/integrations/nomba/transfers.py. The validation of an answer as a model is an argument; an amount
-- in naira stands in hundredths, so that the rounding of `round(amount_kobo / 100, 2)` to a floating
-- point number is not modelled.
pub mod Payment
mod Tests
use offimesh.Prelude.{ℕ, ℤ, Bool, true, Option, none, some}
use offimesh.Exceptions.{Action, Result, ok, err, pure, ◌>>=◌}
use offimesh.Settlements.{TransferAnswer, transferred, transfer_raised}
use offimesh.Nomba.{RetryConfig, Response}
use offimesh.Nomba.Access.{TokenCache, Site}
use offimesh.Nomba.Json.{Json}
use offimesh.Nomba.Resource.{Network, found_or_none, parse_response}

pub record BankAccount : Type 0 where
  pub bank_code : ℕ
  pub account_number : ℕ

-- `NombaBankLookupResponse`
pub record BankLookup : Type 0 where
  pub account_name : ℕ
  pub account_number : ℕ
  pub bank_code : ℕ

pub record TransferBody : Type 0 where
  pub naira_hundredths : ℤ
  pub account : BankAccount
  pub account_name : ℕ
  pub sender_name : ℕ
  pub narration : ℕ
  pub merchant_tx_ref : ℕ

-- `NombaTransferResponse`
pub record Transfer : Type 0 where
  pub transfer_id : ℕ
  pub status : ℕ
  pub reference : ℕ
  pub amount : ℤ

module _ {C : Type 0} (redis : TokenCache C) (config : RetryConfig)
    (json : Response → Result Json) where
  unfoldable pub lookup_bank_account :
      (Json → Result BankLookup) → Network BankAccount → BankAccount → Action (Site C) BankLookup
  lookup_bank_account validate network account = do
    result ← parse_response redis config json validate true network account
    pure (record result { bank_code = account.bank_code })

  module _ (validate : Json → Result Transfer) where
    unfoldable pub initiate_bank_transfer :
        ℤ → BankAccount → ℕ → ℕ → ℕ → ℕ → Network TransferBody → Action (Site C) Transfer
    initiate_bank_transfer amount_kobo account account_name narration merchant_tx_ref sender_name
          network =
        do
          result ← parse_response redis config json validate true network (record {
            naira_hundredths = amount_kobo;
            account = account;
            account_name = account_name;
            sender_name = sender_name;
            narration = narration;
            merchant_tx_ref = merchant_tx_ref;
          })
          pure (record result { reference = merchant_tx_ref; amount = amount_kobo })

    unfoldable pub get_transfer_status : Network ℕ → ℕ → Action (Site C) (Option Transfer)
    get_transfer_status network transaction_ref s =
        let (r, s') = parse_response redis config json validate true network transaction_ref s in
        (found_or_none r, s')

-- What a settlement makes of the call.
unfoldable pub answer_of : Result Transfer → TransferAnswer
answer_of (ok transfer) = transferred transfer.transfer_id
answer_of (err e) = transfer_raised
