-- ===== src/Settlements/Calls.antt =====
-- One call of `process_settlement`.
use offimesh.Prelude.{
  ℕ, ◌≡◌, refl, ap, ◌∙◌, sym, subst, Bool, true, false, Option, some, ◌∷◌, find, replace, arith,
  find-replace_self, key-find,
}
use offimesh.Exceptions.{ok, err, settlement_already_processed, settlement_error}
use offimesh.Models.{
  Db, Transaction, verified, settling, settled, tx_key, user_key, Settlement, User, completed,
  logged, settlement_completed, settlement_completed_audit,
}
use offimesh.Settlements.{
  Bank, task, get_by_tx_id, update_tx, update_settlement, mark_completed, transfer_taken,
  TransferAnswer, transferred, transfer_raised, run_transfer, settle, process_settlement,
  is_completed, new_settlement, update_status, mark_settled, add_event,
}

pub update_tx-transactions :
    (i : ℕ) (f : Transaction → Transaction) (db : Db) (tx : Transaction)
    → find tx_key i db.transactions ≡ some tx
    → (update_tx i f db).transactions ≡ replace tx_key (f tx) db.transactions
unfolding update_tx
update_tx-transactions i f db tx e = ground arith

-- The row of a transaction after an update of it.
pub find-update_tx :
    (i : ℕ) (f : Transaction → Transaction) (db : Db) (tx : Transaction)
    → tx_key (f tx) ≡ tx_key tx
    → find tx_key i db.transactions ≡ some tx
    → find tx_key i (update_tx i f db).transactions ≡ some (f tx)
find-update_tx i f db tx same e =
    let k : tx_key (f tx) ≡ i = same ∙ key-find tx_key i db.transactions tx e in
    rw (update_tx-transactions i f db tx e) (
      subst (λ n. find tx_key n (replace tx_key (f tx) db.transactions) ≡ some (f tx)) k
        (find-replace_self tx_key (f tx) db.transactions tx
          (subst (λ n. find tx_key n db.transactions ≡ some tx) (sym k) e)))

pub update_settlement-transactions :
    (i : ℕ) (f : Settlement → Settlement) (db : Db)
    → (update_settlement i f db).transactions ≡ db.transactions
unfolding update_settlement
update_settlement-transactions i f db = ground arith

-- A failed transfer raises, and the session of the task is rolled back: the failed settlement, its
-- attempt count and the status `settlement_failed` are lost, and only the transfer was asked for.
pub process_settlement_failed :
    (i id now : ℕ) (b : Bank) (tx : Transaction) (payee payer : User) (existing : Option Settlement)
    → find tx_key i b.db.transactions ≡ some tx
    → tx.tx_status ≡ verified
    → get_by_tx_id i b.db ≡ (ok existing, b.db)
    → is_completed existing ≡ false
    → find user_key tx.payee_user_id b.db.users ≡ some payee
    → find user_key tx.payer_user_id b.db.users ≡ some payer
    → task (process_settlement i true id transfer_raised now) b
      ≡ (err settlement_error, record b { sent = (i, tx.amount_kobo) ∷ b.sent })
unfolding process_settlement settle run_transfer
process_settlement_failed i id now b tx payee payer existing e1 e2 e3 e4 e5 e6 = ground arith

-- The database while the client is asked for the transfer.
abbrev pub opened : ℕ → ℕ → Transaction → Option Settlement → ℕ → Db → Db
opened i id tx existing now db =
    update_status i settling
      (record db { settlements = new_settlement id tx existing now ∷ db.settlements })

transferred-row :
    (i id t : ℕ) (db : Db) (tx : Transaction) (f : Settlement → Settlement)
    → find tx_key i db.transactions ≡ some tx
    → find tx_key i (mark_settled i t (update_settlement id f db)).transactions
      ≡ some (record tx { tx_status = settled; nomba_reference = some t })
transferred-row i id t db tx f e =
    find-update_tx i _ (update_settlement id f db) tx refl
      (ap (find tx_key i) (update_settlement-transactions id f db) ∙ e)

abbrev complete_row : ℕ → Settlement → Settlement
complete_row t s = record s { settlement_status = completed; nomba_transfer_id = some t }

-- The database after a transfer that went through.
abbrev pub closed : ℕ → ℕ → ℕ → Db → Db
closed i id t db =
    logged settlement_completed_audit i (
      add_event i settlement_completed
        (mark_settled i t (update_settlement id (complete_row t) db)))

process_settlement_run :
    (i id t now : ℕ) (b : Bank) (tx : Transaction) (payee payer : User)
    (existing : Option Settlement)
    → find tx_key i b.db.transactions ≡ some tx
    → tx.tx_status ≡ verified
    → get_by_tx_id i b.db ≡ (ok existing, b.db)
    → is_completed existing ≡ false
    → find user_key tx.payee_user_id b.db.users ≡ some payee
    → find user_key tx.payer_user_id b.db.users ≡ some payer
    → transfer_taken id t (opened i id tx existing now b.db) ≡ false
    → task (process_settlement i true id (transferred t) now) b ≡ (
      ok (record { nomba_reference = some t; from_cache = false }),
      record b {
        db = closed i id t (opened i id tx existing now b.db);
        sent = (i, tx.amount_kobo) ∷ b.sent;
      },
    )
unfolding process_settlement settle run_transfer mark_completed
process_settlement_run i id t now b tx payee payer existing e1 e2 e3 e4 e5 e6 e7 = ground arith

-- A verified transaction without a completed settlement, whose users exist, is settled by one
-- transfer of its amount if the lock is free, the client answers and its answer is a new id: the
-- call returns that id, and the transaction is settled with it.
pub process_settlement_done :
    (i id t now : ℕ) (b : Bank) (tx : Transaction) (payee payer : User)
    (existing : Option Settlement)
    → find tx_key i b.db.transactions ≡ some tx
    → tx.tx_status ≡ verified
    → get_by_tx_id i b.db ≡ (ok existing, b.db)
    → is_completed existing ≡ false
    → find user_key tx.payee_user_id b.db.users ≡ some payee
    → find user_key tx.payer_user_id b.db.users ≡ some payer
    → transfer_taken id t (opened i id tx existing now b.db) ≡ false
    → let (r, b') = task (process_settlement i true id (transferred t) now) b in
      (r ≡ ok (record { nomba_reference = some t; from_cache = false }))
      × (b'.sent ≡ (i, tx.amount_kobo) ∷ b.sent)
      × (find tx_key i b'.db.transactions
          ≡ some (record tx { tx_status = settled; nomba_reference = some t }))
process_settlement_done i id t now b tx payee payer existing e1 e2 e3 e4 e5 e6 e7 =
    let during =
      find-update_tx i (λ x. record x { tx_status = settling })
        (record b.db { settlements = new_settlement id tx existing now ∷ b.db.settlements }) tx refl
        e1 in
    rw (process_settlement_run i id t now b tx payee payer existing e1 e2 e3 e4 e5 e6 e7) (
      refl,
      refl,
      transferred-row i id t (opened i id tx existing now b.db) (record tx { tx_status = settling })
          (complete_row t) during,
    )

-- A settled transaction is not settled again: every later call raises, whatever the lock and the
-- client would answer, changes nothing and asks for no transfer.
pub process_settlement_again :
    (i id now : ℕ) (lock : Bool) (answer : TransferAnswer) (b : Bank) (tx : Transaction)
    → find tx_key i b.db.transactions ≡ some tx
    → tx.tx_status ≡ settled
    → process_settlement i lock id answer now b ≡ (err settlement_already_processed, b)
unfolding process_settlement
process_settlement_again i id now lock answer b tx e1 e2 = ground arith
