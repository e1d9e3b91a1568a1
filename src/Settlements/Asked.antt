-- ===== src/Settlements/Asked.antt =====
-- Which calls ask the bank for the transfer of a transaction.
use offimesh.Prelude.{
  ℕ, suc, ℤ, ◌≡◌, ◌≢◌, refl, subst, Bool, true, false, Option, none, some, List, [], ◌∷◌, ◌==◌,
  arith, inl, inr, Bool-cases,
}
use offimesh.Exceptions.{Action, Runs, Result, ok, err, modify}
use offimesh.Models.{
  Db, Transaction, TxStatus, verified, settling, settled, settlement_failed, other_tx_status,
  Settlement, EventType, AuditAction, audit,
}
use offimesh.Settlements.{
  Bank, task, update_status, mark_settled, add_event, with_settlement, process_settlement, settle,
  run_transfer, TransferAnswer, transferred, transfer_raised, require_verified, SettlementReply,
  close_task, process_transfer_success_webhook, process_transfer_failed_webhook,
}
use offimesh.Settlements.Sweeps.{is_open, has_open, refused}
use offimesh.Settlements.Worker.{Attempt, settle_each, carry_on, is_aborted}
use offimesh.Settlements.Closed.{
  is_closed, DbStays, DbStays-same, DbStays-update_tx, Stays, Stays-refl, Stays-trans, stays_rules,
}

module _ (i : ℕ) where
  add_event-DbStays : (j : ℕ) (e : EventType) (d : Db) → DbStays i d (add_event j e d)
  add_event-DbStays j e d = DbStays-same i d _ refl

  audit-DbStays : (a : AuditAction) (j : ℕ) → Runs (DbStays i) (audit a j)
  audit-DbStays a j = record { at = λ d. DbStays-same i d _ refl }

  update_status-DbStays :
      (j : ℕ) (t : TxStatus) → is_open t ≡ false → (d : Db) → DbStays i d (update_status j t d)
  update_status-DbStays j t shut d = DbStays-update_tx i j _ d (λ tx. refl) (λ tx. shut)

  mark_settled-DbStays : (j k : ℕ) (d : Db) → DbStays i d (mark_settled j k d)
  mark_settled-DbStays j k d = DbStays-update_tx i j _ d (λ tx. refl) (λ tx. refl)

  ruleset marks =
      (stays_rules, add_event-DbStays, audit-DbStays, update_status-DbStays, mark_settled-DbStays)

  run_transfer-Stays : (j id : ℕ) (a : TransferAnswer) → Runs (Stays i) (run_transfer j id a)
  unfolding run_transfer
  run_transfer-Stays j id (transferred t) = search marks depth 12
  run_transfer-Stays j id transfer_raised = search marks depth 12

  with_settlement-DbStays :
      (s : Option Settlement) (f : ℕ → Action Db (Unit {0}))
      → ((id : ℕ) → Runs (DbStays i) (f id))
      → Runs (DbStays i) (with_settlement s f)
  unfolding with_settlement
  with_settlement-DbStays none f h = record { at = λ d. DbStays-same i d _ refl }
  with_settlement-DbStays (some s) f h = h s.id

  pub success-DbStays : (j t : ℕ) → Runs (DbStays i) (process_transfer_success_webhook j t)
  unfolding process_transfer_success_webhook
  success-DbStays j t = search (marks, with_settlement-DbStays) depth 12

  pub failure-DbStays :
      (j : ℕ) (code : Option ℕ) → Runs (DbStays i) (process_transfer_failed_webhook j code)
  unfolding process_transfer_failed_webhook
  failure-DbStays j code = search (marks, with_settlement-DbStays) depth 12

  ask-Stays :
      (j : ℕ) (a : ℤ) → j ≢ i → Runs (Stays i) (modify (λ b. record b { sent = (j, a) ∷ b.sent }))
  ask-Stays j a other = record {
    at = λ b. record {
      keeps = λ h. h;
      silent = λ h. let miss : (j == i) ≡ false = ground arith in rw miss refl;
    };
  }

  add_settlement-DbStays :
      (s : Settlement) (d : Db) → DbStays i d (record d { settlements = s ∷ d.settlements })
  add_settlement-DbStays s d = DbStays-same i d _ refl

  settle-Stays :
      (j : ℕ) (tx : Transaction) (existing : Option Settlement) (lock : Bool) (id : ℕ)
      (a : TransferAnswer) (now : ℕ)
      → j ≢ i
      → Runs (Stays i) (settle j tx existing lock id a now)
  unfolding settle
  settle-Stays j tx existing lock id a now other =
      search (marks, run_transfer-Stays, ask-Stays, add_settlement-DbStays) depth 16

  require_verified-Stays : (t : TxStatus) → Runs (Stays i) (require_verified t)
  require_verified-Stays verified = record { at = Stays-refl i }
  require_verified-Stays settling = record { at = Stays-refl i }
  require_verified-Stays settled = record { at = Stays-refl i }
  require_verified-Stays settlement_failed = record { at = Stays-refl i }
  require_verified-Stays (other_tx_status _) = record { at = Stays-refl i }

  other-Stays :
      (j : ℕ) (lock : Bool) (id : ℕ) (a : TransferAnswer) (now : ℕ)
      → j ≢ i
      → Runs (Stays i) (process_settlement j lock id a now)
  unfolding process_settlement
  other-Stays j lock id a now other = search (marks, require_verified-Stays, settle-Stays) depth 16

  closed-not_open : (d : Db) → is_closed i d ≡ true → has_open i d ≡ false
  closed-not_open d h = ground arith

  -- No call asks for the transfer of a closed transaction, or opens it.
  pub process_settlement-Stays :
      (j : ℕ) (lock : Bool) (id : ℕ) (a : TransferAnswer) (now : ℕ) (b : Bank)
      → is_closed i b.db ≡ true
      → Stays i b (process_settlement j lock id a now b).1
  process_settlement-Stays j lock id a now b h = elim (Bool-cases (j == i)) [
    | inl hit ↦
        let same : i ≡ j = ground arith in
        let attempt : Attempt = record { lock_acquired = lock; id = id; answer = a; now = now } in
        let r = refused i attempt b (closed-not_open b.db h) in
        subst (λ k. Stays i b (process_settlement k lock id a now b).1) same
          (rw r.run (Stays-refl i b))
    | inr miss ↦ let other : j ≢ i = ground arith in (other-Stays j lock id a now other).at b
  ]

  close_task-Stays :
      {A : Type 0} (r : Result A) (b b' : Bank) → Stays i b b' → Stays i b (close_task b (r, b')).1
  close_task-Stays (ok a) b b' s = s
  close_task-Stays (err e) b b' s = record { keeps = λ h. h; silent = s.silent }

  pub task-Stays :
      {A : Type 0} (m : Action Bank A) (b : Bank) → Stays i b (m b).1 → Stays i b (task m b).1
  task-Stays m b s = close_task-Stays (m b).0 b (m b).1 s

  carry_on-Stays :
      (start : Db) (r : Result SettlementReply) (rest : ℕ → Bank → ℕ × Bank) (count : ℕ) (b : Bank)
      → is_closed i start ≡ true
      → ((n : ℕ) → Stays i b (rest n b).1)
      → Stays i b (carry_on start r rest count b).1
  carry_on-Stays start (ok _) rest count b s h = h (suc count)
  carry_on-Stays start (err e) rest count b s h = elim (Bool-cases (is_aborted e)) [
    | inl yes_aborted ↦ rw yes_aborted (record { keeps = λ _. s; silent = λ _. refl })
    | inr goes_on ↦ rw goes_on (h count)
  ]

  pub settle_each-Stays :
      (attempts : ℕ → Attempt) (start : Db) (js : List ℕ) (k count : ℕ) (b : Bank)
      → is_closed i start ≡ true
      → is_closed i b.db ≡ true
      → Stays i b (settle_each attempts start js k count b).1
  unfolding settle_each
  settle_each-Stays attempts start [] k count b s h = Stays-refl i b
  settle_each-Stays attempts start (j ∷ js) k count b s h =
      let a = attempts k in
      let (r, b') = process_settlement j a.lock_acquired a.id a.answer a.now b in
      let now = process_settlement-Stays j a.lock_acquired a.id a.answer a.now b h in
      Stays-trans i b b' _ now (
        carry_on-Stays start r (settle_each attempts start js (suc k)) count b' s
          (λ n. settle_each-Stays attempts start js (suc k) n b' s (now.keeps h)))
