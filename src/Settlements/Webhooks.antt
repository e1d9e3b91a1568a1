-- ===== src/Settlements/Webhooks.antt =====
-- The transfer webhooks, which ask for no status of the transaction.
use offimesh.Prelude.{
  ℕ, ℤ, ◌≡◌, refl, ap, ◌∙◌, Bool, Option, none, some, List, [], ◌∷◌, ◌==◌, find, filter_by, arith,
}
use offimesh.Exceptions.{ok, err, settlement_error, modify}
use offimesh.Models.{
  Db, Transaction, settlement_failed, tx_key, Settlement, settlement_failed_webhook,
}
use offimesh.Settlements.{
  Bank, one_or_none, get_by_tx_id, update_tx, update_status, mark_failed, with_settlement,
  add_event, process_transfer_failed_webhook, process_settlement, TransferAnswer,
}
use offimesh.Settlements.Calls.{find-update_tx, update_settlement-transactions}

one_or_none_same :
    (xs : List Settlement) (db db' : Db) (s : Option Settlement)
    → one_or_none xs db ≡ (ok s, db)
    → one_or_none xs db' ≡ (ok s, db')
unfolding one_or_none
one_or_none_same [] db db' s e = ap (λ r. (r.0, db')) e
one_or_none_same (x ∷ []) db db' s e = ap (λ r. (r.0, db')) e
one_or_none_same (x ∷ y ∷ xs) db db' s e = ap (λ r. (r.0, db')) e

update_tx-settlements :
    (i : ℕ) (f : Transaction → Transaction) (db : Db)
    → (update_tx i f db).settlements ≡ db.settlements
unfolding update_tx
update_tx-settlements i f db = ground arith

get-update_tx :
    (i : ℕ) (f : Transaction → Transaction) (db : Db) (s : Option Settlement)
    → get_by_tx_id i db ≡ (ok s, db)
    → get_by_tx_id i (update_tx i f db) ≡ (ok s, update_tx i f db)
unfolding get_by_tx_id
get-update_tx i f db s e =
    ap (λ xs. one_or_none (filter_by (λ x. x.tx_id == i) xs) (update_tx i f db))
      (update_tx-settlements i f db)
    ∙ one_or_none_same (filter_by (λ x. x.tx_id == i) db.settlements) db (update_tx i f db) s e

with_settlement_failed :
    (s : Option Settlement) (code : Option ℕ) (db : Db)
    → let (r, db') = with_settlement s (λ id. modify (mark_failed id code)) db in
      (r ≡ ok tt) × (db'.transactions ≡ db.transactions)
unfolding with_settlement
with_settlement_failed none code db = (refl, refl)
with_settlement_failed (some s) code db = (refl, update_settlement-transactions s.id _ db)

failed_run :
    (i : ℕ) (code : Option ℕ) (db : Db) (tx : Transaction) (s : Option Settlement)
    → find tx_key i db.transactions ≡ some tx
    → get_by_tx_id i db ≡ (ok s, db)
    → process_transfer_failed_webhook i code db ≡ (
      ok tt,
      add_event i settlement_failed_webhook
          (with_settlement s
            (λ id. modify (mark_failed id code))
            (update_status i settlement_failed db)).1,
    )
unfolding process_transfer_failed_webhook
failed_run i code db tx s e g =
    let read = get-update_tx i (λ x. record x { tx_status = settlement_failed }) db s g in
    let done = (with_settlement_failed s code (update_status i settlement_failed db)).0 in
    ground arith

refused :
    (i id now : ℕ) (lock : Bool) (answer : TransferAnswer) (b : Bank) (tx : Transaction)
    → find tx_key i b.db.transactions ≡ some tx
    → tx.tx_status ≡ settlement_failed
    → process_settlement i lock id answer now b ≡ (err settlement_error, b)
unfolding process_settlement
refused i id now lock answer b tx e f = ground arith

-- A `transfer.failed` webhook for a known transaction with at most one settlement row succeeds and
-- marks the transaction failed, a settled one included; `process_settlement` then refuses it,
-- whatever the lock and the client would answer.
pub failed_webhook_reopens :
    (i id now : ℕ) (code : Option ℕ) (lock : Bool) (answer : TransferAnswer) (sent : List (ℕ × ℤ))
    (db : Db) (tx : Transaction) (s : Option Settlement)
    → find tx_key i db.transactions ≡ some tx
    → get_by_tx_id i db ≡ (ok s, db)
    → let (r, db') = process_transfer_failed_webhook i code db in
      let b : Bank = record { db = db'; sent = sent } in
      (r ≡ ok tt)
      × (find tx_key i db'.transactions ≡ some (record tx { tx_status = settlement_failed }))
      × (process_settlement i lock id answer now b ≡ (err settlement_error, b))
failed_webhook_reopens i id now code lock answer sent db tx s e g =
    let db1 = update_status i settlement_failed db in
    let (_, same) = with_settlement_failed s code db1 in
    let row =
      ap (find tx_key i) same
      ∙ find-update_tx i (λ x. record x { tx_status = settlement_failed }) db tx refl e in
    let b : Bank = record {
      db =
          add_event i settlement_failed_webhook
            (with_settlement s (λ k. modify (mark_failed k code)) db1).1;
      sent = sent;
    } in
    rw (failed_run i code db tx s e g) (
      refl,
      row,
      refused i id now lock answer b (record tx { tx_status = settlement_failed }) row refl,
    )
