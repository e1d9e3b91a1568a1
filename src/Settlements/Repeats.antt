-- ===== src/Settlements/Repeats.antt =====
-- Calls of the task in a row: `process_settlement` of app/workers/settlement_worker.py runs again
-- after an exception, at most three times more.
use offimesh.Prelude.{
  ℕ, ℤ, ◌≡◌, refl, ap, ◌∙◌, Bool, true, false, Option, some, List, [], ◌∷◌, find, All,
  if◌then◌else◌, Bool-cases, inl, inr, arith,
}
use offimesh.Exceptions.{Action, Result, ok, err, settlement_already_processed, settlement_error}
use offimesh.Models.{Db, Transaction, verified, settled, tx_key, user_key, Settlement, User}
use offimesh.Settlements.{
  Bank, task, get_by_tx_id, TransferAnswer, transferred, transfer_raised, process_settlement,
  is_completed, SettlementReply,
}
use offimesh.Settlements.Calls.{
  opened, process_settlement_failed, process_settlement_done, process_settlement_again,
}
use offimesh.Settlements.{settle, transfer_taken}
use offimesh.Settlements.Worker.{Attempt}

abbrev pub after_failure :
    Result SettlementReply × Bank → Action Bank SettlementReply → Result SettlementReply × Bank
after_failure (ok reply, b) again = (ok reply, b)
after_failure (err e, b) again = again b

-- One run, with the lock, the identifier, the answer of the client and the time that it meets.
unfoldable pub run_settlement : ℕ → Attempt → Action Bank SettlementReply
run_settlement i a b = task (process_settlement i a.lock_acquired a.id a.answer a.now) b

-- The first run and its retries.
unfoldable pub process_settlement_task : ℕ → Attempt → List Attempt → Action Bank SettlementReply
process_settlement_task i a [] b = run_settlement i a b
process_settlement_task i a (next ∷ rest) b =
    let again = process_settlement_task i next rest in after_failure (run_settlement i a b) again

-- The client does not answer the run.
abbrev pub IsUnanswered : Attempt → Type 0
IsUnanswered a = a.answer ≡ transfer_raised

-- One request for each run that gets the lock.
unfoldable pub asked : List Attempt → ℕ × ℤ → List (ℕ × ℤ) → List (ℕ × ℤ)
asked [] x sent = sent
asked (a ∷ rest) x sent = asked rest x (if a.lock_acquired then x ∷ sent else sent)

-- A verified transaction whose users exist and that has no completed settlement.
pub record IsPayable (i : ℕ) (tx : Transaction) (payee payer : User) (existing : Option Settlement)
    (db : Db) : Type 0 where
  pub row : find tx_key i db.transactions ≡ some tx
  pub is_due : tx.tx_status ≡ verified
  pub known : get_by_tx_id i db ≡ (ok existing, db)
  pub unpaid : is_completed existing ≡ false
  pub payee_row : find user_key tx.payee_user_id db.users ≡ some payee
  pub payer_row : find user_key tx.payer_user_id db.users ≡ some payer

process_settlement_locked :
    (i id now : ℕ) (answer : TransferAnswer) (b : Bank) (tx : Transaction) (payee payer : User)
    (existing : Option Settlement)
    → IsPayable i tx payee payer existing b.db
    → task (process_settlement i false id answer now) b ≡ (err settlement_error, b)
unfolding process_settlement settle
process_settlement_locked i id now answer b tx payee payer existing h =
    ground (arith, h.row, h.is_due, h.known, h.unpaid)

run_settlement_failed :
    (i : ℕ) (a : Attempt) (b : Bank) (tx : Transaction) (payee payer : User)
    (existing : Option Settlement)
    → IsUnanswered a
    → IsPayable i tx payee payer existing b.db
    → run_settlement i a b ≡ (
      err settlement_error,
      record b { sent = if a.lock_acquired then (i, tx.amount_kobo) ∷ b.sent else b.sent },
    )
unfolding run_settlement
run_settlement_failed i a b tx payee payer existing silent h = elim (Bool-cases a.lock_acquired) [
  | inl free ↦ rw silent (
      rw free (
        process_settlement_failed i a.id a.now b tx payee payer existing h.row h.is_due h.known
          h.unpaid h.payee_row h.payer_row))
  | inr taken ↦
      rw taken (process_settlement_locked i a.id a.now a.answer b tx payee payer existing h)
]

-- If the client raises whenever it is asked, for a verified transaction whose users exist and that
-- has no completed settlement, the task raises in every run, whatever the locks; the client is asked
-- for the transfer once in each run that gets the lock, and the database never learns of any
-- attempt: it ends as it began, the transaction still verified.
pub process_settlement_task_failed :
    (i : ℕ) (a : Attempt) (rest : List Attempt) (b : Bank) (tx : Transaction) (payee payer : User)
    (existing : Option Settlement)
    → All IsUnanswered (a ∷ rest)
    → find tx_key i b.db.transactions ≡ some tx
    → tx.tx_status ≡ verified
    → get_by_tx_id i b.db ≡ (ok existing, b.db)
    → is_completed existing ≡ false
    → find user_key tx.payee_user_id b.db.users ≡ some payee
    → find user_key tx.payer_user_id b.db.users ≡ some payer
    → process_settlement_task i a rest b
      ≡ (err settlement_error, record b { sent = asked (a ∷ rest) (i, tx.amount_kobo) b.sent })
unfolding process_settlement_task asked
process_settlement_task_failed i a [] b tx payee payer existing silent e1 e2 e3 e4 e5 e6 =
    run_settlement_failed i a b tx payee payer existing silent.0
      (record { row = e1; is_due = e2; known = e3; unpaid = e4; payee_row = e5; payer_row = e6 })
process_settlement_task_failed i a (next ∷ rest) b tx payee payer existing silent e1 e2 e3 e4 e5
      e6 =
    let sent' = if a.lock_acquired then (i, tx.amount_kobo) ∷ b.sent else b.sent in
    ap (λ r. after_failure r (process_settlement_task i next rest))
      (run_settlement_failed i a b tx payee payer existing silent.0
        (record { row = e1; is_due = e2; known = e3; unpaid = e4; payee_row = e5; payer_row = e6 }))
    ∙ process_settlement_task_failed i next rest (record b { sent = sent' }) tx payee payer existing
        silent.1 e1 e2 e3 e4 e5 e6

-- Once a call has settled a verified transaction, whose users exist and that had no completed
-- settlement, under a new transfer id, the next call for it raises, whatever the lock and the client
-- would answer, changes nothing and asks for no second transfer.
settled_once :
    (i id t now id' now' : ℕ) (lock : Bool) (answer : TransferAnswer) (b : Bank) (tx : Transaction)
    (payee payer : User) (existing : Option Settlement)
    → find tx_key i b.db.transactions ≡ some tx
    → tx.tx_status ≡ verified
    → get_by_tx_id i b.db ≡ (ok existing, b.db)
    → is_completed existing ≡ false
    → find user_key tx.payee_user_id b.db.users ≡ some payee
    → find user_key tx.payer_user_id b.db.users ≡ some payer
    → transfer_taken id t (opened i id tx existing now b.db) ≡ false
    → let b' = (task (process_settlement i true id (transferred t) now) b).1 in
      (b'.sent ≡ (i, tx.amount_kobo) ∷ b.sent)
      × (process_settlement i lock id' answer now' b' ≡ (err settlement_already_processed, b'))
settled_once i id t now id' now' lock answer b tx payee payer existing e1 e2 e3 e4 e5 e6 e7 =
    let (_, once, row) =
      process_settlement_done i id t now b tx payee payer existing e1 e2 e3 e4 e5 e6 e7 in
    let b' = (task (process_settlement i true id (transferred t) now) b).1 in
    (
      once,
      process_settlement_again i id' now' lock answer b'
          (record tx { tx_status = settled; nomba_reference = some t }) row refl,
    )
