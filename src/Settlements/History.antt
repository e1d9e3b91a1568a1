-- ===== src/Settlements/History.antt =====
-- Histories of settlements, webhooks and batches on one database.
mod Tests
use offimesh.Prelude.{
  ℕ, ◌≡◌, ◌≢◌, refl, ap, ◌∙◌, Bool, true, false, not, Option, none, some, List, [], ◌∷◌, ◌==◌,
  if◌then◌else◌, find, is_some, arith, inl, inr, Bool-cases, Option-cases,
}
use offimesh.Exceptions.{Action, Runs, Result, ok, err, session, commit_or_rollback}
use offimesh.Models.{Db, Transaction, tx_key}
use offimesh.Reconciliation.{NombaTransaction, adopt_status, sync_transaction_status, same_status}
use offimesh.Sync.Cache.{Redis, World, request, settle_request}
use offimesh.Sync.Requests.{TxData, Request, Outcome}
use offimesh.Sync.{sync_batch, charge}
use offimesh.Sync.Steps.{Effect, nothing, takes}
use offimesh.Sync.Batches.{sync_batch-keeps}
use offimesh.Settlements.{
  Bank, on_db, task, process_settlement, SettlementReply, TransferAnswer,
  process_transfer_success_webhook, process_transfer_failed_webhook,
}
use offimesh.Settlements.Repeats.{run_settlement, process_settlement_task, after_failure}
use offimesh.Settlements.Sweeps.{is_open}
use offimesh.Settlements.Worker.{
  Attempt, tx_ids, get_pending_retry, retry_failed_settlements, process_batch_settlements,
}
use offimesh.Settlements.Closed.{
  is_closed, sent_for, DbStays, DbStays-refl, DbStays-update_tx, Stays, Stays-refl, Stays-trans,
}
use offimesh.Settlements.Asked.{
  process_settlement-Stays, task-Stays, settle_each-Stays, success-DbStays, failure-DbStays,
}

-- A request for one settlement, the task with its retries, the two tasks over many, the two
-- webhooks, a batch that meets Redis in some state, and the adoption of a status from the bank.
pub data BankCall (C : Type 0) : Type 0 where
  settles : ℕ → Bool → ℕ → TransferAnswer → ℕ → BankCall C
  retries : ℕ → Attempt → List Attempt → BankCall C
  sweeps : (ℕ → Attempt) → BankCall C
  batches : (ℕ → Attempt) → List ℕ → BankCall C
  succeeds : ℕ → ℕ → BankCall C
  fails : ℕ → Option ℕ → BankCall C
  syncs : ℕ → ℕ → List TxData → ℕ → C → BankCall C
  adopts : ℕ → Result (Option NombaTransaction) → BankCall C

module _ {C : Type 0} (redis : Redis C) where
  unfoldable pub perform : BankCall C → Bank → Bank
  perform (settles i lock id answer now) b = (task (process_settlement i lock id answer now) b).1
  perform (retries i a rest) b = (process_settlement_task i a rest b).1
  perform (sweeps attempts) b = (retry_failed_settlements attempts b).1
  perform (batches attempts ids) b = (process_batch_settlements attempts ids b).1
  perform (succeeds i t) b = (on_db (session (process_transfer_success_webhook i t)) b).1
  perform (fails i code) b = (on_db (session (process_transfer_failed_webhook i code)) b).1
  perform (syncs batch device txs now cache) b =
      let run =
        request (sync_batch redis batch device txs now) (record { db = b.db; cache = cache }) in
      record b { db = run.1.db }
  perform (adopts i answer) b = (on_db (session (sync_transaction_status i answer)) b).1

  unfoldable pub perform_all : List (BankCall C) → Bank → Bank
  perform_all [] b = b
  perform_all (call ∷ calls) b = perform_all calls (perform call b)

  module _ (i : ℕ) where
    session-Stays :
        {A : Type 0} (r : Result A) (d : Db) (b : Bank)
        → DbStays i b.db d
        → Stays i b (record b { db = (commit_or_rollback b.db (r, d)).1 })
    session-Stays (ok a) d b h = record { keeps = h.keeps; silent = λ _. refl }
    session-Stays (err e) d b h = record { keeps = λ k. k; silent = λ _. refl }

    entry-closed :
        (o : Result Outcome) (d d' : Db)
        → Effect o d d'
        → is_closed i d ≡ true
        → is_closed i d' ≡ true
    unfolding charge
    entry-closed o d d' (nothing _) h = h
    entry-closed o d d' (takes r token e live fits new fresh) h = elim (Bool-cases (r.tx_id == i)) [
      | inl hit ↦ absurd (ground arith)
      | inr miss ↦ rw (miss, is_closed) h
    ]

    request-Stays :
        {A : Type 0} (r : Result A) (w w' : World C) (b : Bank)
        → w.db ≡ b.db
        → (is_closed i b.db ≡ true → is_closed i w'.db ≡ true)
        → Stays i b (record b { db = (settle_request w (r, w')).1.db })
    request-Stays (ok a) w w' b e h = record { keeps = h; silent = λ _. refl }
    request-Stays (err x) w w' b e h = record { keeps = λ k. rw e k; silent = λ _. refl }

    after_failure-Stays :
        (r : Result SettlementReply) (b' b : Bank) (again : Action Bank SettlementReply)
        → Stays i b b'
        → Stays i b' (again b').1
        → Stays i b (after_failure (r, b') again).1
    after_failure-Stays (ok reply) b' b again s t = s
    after_failure-Stays (err e) b' b again s t = Stays-trans i b b' (again b').1 s t

    run-Stays :
        (j : ℕ) (a : Attempt) (b : Bank)
        → is_closed i b.db ≡ true
        → Stays i b (run_settlement j a b).1
    unfolding run_settlement
    run-Stays j a b h =
        task-Stays i (process_settlement j a.lock_acquired a.id a.answer a.now) b
          (process_settlement-Stays i j a.lock_acquired a.id a.answer a.now b h)

    task_retries-Stays :
        (j : ℕ) (a : Attempt) (rest : List Attempt) (b : Bank)
        → is_closed i b.db ≡ true
        → Stays i b (process_settlement_task j a rest b).1
    unfolding process_settlement_task
    task_retries-Stays j a [] b h = run-Stays j a b h
    task_retries-Stays j a (next ∷ rest) b h =
        let (r, b') = run_settlement j a b in
        let first = run-Stays j a b h in
        after_failure-Stays r b' b (process_settlement_task j next rest) first
          (task_retries-Stays j next rest b' (first.keeps h))

    adopt_status-DbStays :
        (j : ℕ) (tx : Transaction) (n : NombaTransaction) → Runs (DbStays i) (adopt_status j tx n)
    unfolding adopt_status
    adopt_status-DbStays j tx n = record {
      at = λ d. elim (Bool-cases (same_status tx.tx_status n.status)) [
        | inl same ↦ rw same (DbStays-refl i d)
        | inr new ↦ rw new (DbStays-update_tx i j _ d (λ x. refl) (λ x. refl))
      ];
    }

    sync-DbStays :
        (j : ℕ) (answer : Result (Option NombaTransaction))
        → Runs (DbStays i) (sync_transaction_status j answer)
    unfolding sync_transaction_status
    sync-DbStays j (err e) = record { at = DbStays-refl i }
    sync-DbStays j (ok none) = record { at = DbStays-refl i }
    sync-DbStays j (ok (some n)) = record {
      at = λ d. elim (Option-cases (find tx_key j d.transactions)) [
        | inl missing ↦ rw missing (DbStays-refl i d)
        | inr (tx, e) ↦ rw e ((adopt_status-DbStays j tx n).at d)
      ];
    }

    perform-Stays :
        (call : BankCall C) (b : Bank) → is_closed i b.db ≡ true → Stays i b (perform call b)
    unfolding perform retry_failed_settlements process_batch_settlements
    perform-Stays (settles j lock id answer now) b h =
        task-Stays i (process_settlement j lock id answer now) b
          (process_settlement-Stays i j lock id answer now b h)
    perform-Stays (retries j a rest) b h = task_retries-Stays j a rest b h
    perform-Stays (sweeps attempts) b h =
        settle_each-Stays i attempts b.db (tx_ids (get_pending_retry 3 50 b.db)) 0 0 b h h
    perform-Stays (batches attempts ids) b h = settle_each-Stays i attempts b.db ids 0 0 b h h
    perform-Stays (succeeds j t) b h =
        let (r, d) = process_transfer_success_webhook j t b.db in
        session-Stays r d b ((success-DbStays i j t).at b.db)
    perform-Stays (fails j code) b h =
        let (r, d) = process_transfer_failed_webhook j code b.db in
        session-Stays r d b ((failure-DbStays i j code).at b.db)
    perform-Stays (adopts j answer) b h =
        let (r, d) = sync_transaction_status j answer b.db in
        session-Stays r d b ((sync-DbStays j answer).at b.db)
    perform-Stays (syncs batch device txs now cache) b h =
        let w : World C = record { db = b.db; cache = cache } in
        let (r, w') = sync_batch redis batch device txs now w in
        request-Stays r w w' b refl (
          sync_batch-keeps redis (λ d. is_closed i d ≡ true) entry-closed batch device txs now w
            (λ d k. k))

  -- Once a transaction has left the status `verified`, it never comes back to it, and the bank is
  -- never asked for its transfer again: whatever settlements, retries, sweeps, batch settlements,
  -- transfer webhooks, synchronised batches and statuses taken over from the bank follow, whichever of them raise, and whatever the
  -- locks, the client and Redis answer.
  pub perform_all-sent_for :
      (i : ℕ) (calls : List (BankCall C)) (b : Bank)
      → is_closed i b.db ≡ true
      → let b' = perform_all calls b in
        (is_closed i b'.db ≡ true) × (sent_for i b'.sent ≡ sent_for i b.sent)
  unfolding perform_all
  perform_all-sent_for i [] b h = (h, refl)
  perform_all-sent_for i (call ∷ calls) b h =
      let now = perform-Stays i call b h in
      let later = perform_all-sent_for i calls (perform call b) (now.keeps h) in
      (later.0, later.1 ∙ now.silent h)
