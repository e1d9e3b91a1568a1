-- ===== src/Nomba/Transfers/Payment.antt =====
-- A settlement by way of the client.
use offimesh.Prelude.{ℕ, suc, ◌+◌, ◌≡◌, refl, true, false, Option, some, ◌∷◌, find}
use offimesh.Exceptions.{Result, ok}
use offimesh.Models.{Transaction, Settlement, User, verified, settled, tx_key, user_key}
use offimesh.Settlements.{
  Bank, task, get_by_tx_id, is_completed, transfer_taken, process_settlement,
}
use offimesh.Settlements.Calls.{opened, process_settlement_done}
use offimesh.Nomba.{RetryConfig, Response}
use offimesh.Nomba.Recovery.{Answers}
use offimesh.Nomba.Access.{TokenCache, Site}
use offimesh.Nomba.Json.{Json, unwrap}
use offimesh.Nomba.Resource.{Network}
use offimesh.Nomba.Resource.Ready.{IsReady, Served, parse_response-Served}
use offimesh.Nomba.Transfers.{
  BankAccount, TransferBody, Transfer, initiate_bank_transfer, answer_of,
}

-- The texts that a settlement sends along.
pub record Wording : Type 0 where
  pub account : BankAccount
  pub account_name : ℕ
  pub narration : ℕ
  pub sender_name : ℕ

abbrev pub body_of : Transaction → Wording → TransferBody
body_of tx w = record {
  naira_hundredths = tx.amount_kobo;
  account = w.account;
  account_name = w.account_name;
  sender_name = w.sender_name;
  narration = w.narration;
  merchant_tx_ref = tx.tx_id;
}

module _ {C : Type 0} (redis : TokenCache C) (config : RetryConfig) (json : Response → Result Json)
    (validate : Json → Result Transfer) (network : Network TransferBody) where
  abbrev pub pay : Transaction → Wording → Site C → Result Transfer × Site C
  pay tx w =
      initiate_bank_transfer redis config json validate tx.amount_kobo w.account w.account_name
        w.narration tx.tx_id w.sender_name network

  pay-Served :
      (tx : Transaction) (w : Wording) (r : Response) (payload : Json) (transfer : Transfer)
      (s : Site C)
      → (a : Answers config (network.exchanges (body_of tx w)) r) → json r ≡ ok payload
      → validate (unwrap payload) ≡ ok transfer
      → IsReady redis config s
      → Served redis config
          (record transfer { reference = tx.tx_id; amount = tx.amount_kobo })
          (suc a.failed)
          s
          (pay tx w s)
  unfolding initiate_bank_transfer
  pay-Served tx w r payload transfer s a e v ready =
      let run =
        parse_response-Served redis config json network (body_of tx w) r payload s a e ready
          validate transfer v in
      rw run.returns
        (record { returns = refl; counts = run.counts; quiet = run.quiet; ready = run.ready })

  -- If the bank answers the transfer of a verified transaction, whose users exist and that has no
  -- completed settlement, after failures within the retries, and its answer is a new id, and if
  -- the lock is free, Redis keeps a token and no failure has touched the breaker, then the
  -- settlement that the client is called from settles the transaction with that id, by one
  -- transfer of its amount and one request more than failed and none for a token, whatever status
  -- the answer gives the transfer.
  pub process_settlement-pay :
      (i id now : ℕ) (b : Bank) (tx : Transaction) (payee payer : User)
      (existing : Option Settlement) (w : Wording) (r : Response) (payload : Json)
      (transfer : Transfer) (s : Site C)
      → find tx_key i b.db.transactions ≡ some tx
      → tx.tx_status ≡ verified
      → get_by_tx_id i b.db ≡ (ok existing, b.db)
      → is_completed existing ≡ false
      → find user_key tx.payee_user_id b.db.users ≡ some payee
      → find user_key tx.payer_user_id b.db.users ≡ some payer
      → transfer_taken id transfer.transfer_id (opened i id tx existing now b.db) ≡ false
      → (a : Answers config (network.exchanges (body_of tx w)) r) → json r ≡ ok payload
      → validate (unwrap payload) ≡ ok transfer
      → IsReady redis config s
      → let (reply, s') = pay tx w s in
        let (result, b') = task (process_settlement i true id (answer_of reply) now) b in
        (result ≡ ok (record { nomba_reference = some transfer.transfer_id; from_cache = false }))
        × (b'.sent ≡ (i, tx.amount_kobo) ∷ b.sent)
        × (find tx_key i b'.db.transactions
            ≡ some (record tx { tx_status = settled; nomba_reference = some transfer.transfer_id }))
        × (s'.client.sent ≡ s.client.sent + suc a.failed)
        × (s'.fetches ≡ s.fetches)
  unfolding answer_of
  process_settlement-pay i id now b tx payee payer existing w r payload transfer s e1 e2 e3 e4 e5 e6
        e7 a e v ready =
      let paid = pay-Served tx w r payload transfer s a e v ready in
      let settles =
        process_settlement_done i id transfer.transfer_id now b tx payee payer existing e1 e2 e3 e4
          e5 e6 e7 in
      rw paid.returns (settles.0, settles.1, settles.2, paid.counts, paid.quiet)
