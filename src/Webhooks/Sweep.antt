-- ===== src/Webhooks/Sweep.antt =====
-- The sweep over the events that are not processed, at fundings of virtual accounts.
use offimesh.Prelude.{
  ℕ, ◌≡◌, refl, ap, ◌∙◌, sym, subst, true, none, some, List, [], ◌∷◌, ◌==◌, find, find-replace_ne,
  key-find, is_some, inl, inr, All, ◌⊎◌, Bool-cases, Option-cases, arith,
}
use offimesh.Exceptions.{ok, err, type_error}
use offimesh.Models.{Db, WebhookEvent, webhook_key, payment_success}
use offimesh.Webhooks.{
  non_empty, update_webhook, mark_failed, dispatch, process_event, already_processed,
  process_webhook_event, get_unprocessed, process_each, process_pending_webhooks,
}
use offimesh.Webhooks.Processing.{
  IsDone, update_webhook-webhooks, update_webhook-IsDone, process_webhook_event_done,
}

-- A complete funding of a virtual account.
pub record IsFunding (w : WebhookEvent) : Type 0 where
  pub success : w.event_type ≡ payment_success
  pub virtual : w.payload.is_virtual ≡ true
  pub referenced : is_some (non_empty w.payload.account_ref) ≡ true
  pub with_amount : is_some w.payload.amount_kobo ≡ true

dispatch-IsFunding :
    (w : WebhookEvent) (db : Db)
    → IsFunding w
    → dispatch w.event_type w.payload db ≡ (err type_error, db)
unfolding dispatch
dispatch-IsFunding w db h = rw h.success (ground (arith, h.virtual, h.referenced, h.with_amount))

process_event-IsFunding :
    (w : WebhookEvent) (db : Db)
    → IsFunding w
    → process_event w db ≡ (err type_error, mark_failed w.id db)
unfolding process_event
process_event-IsFunding w db h = rw (dispatch-IsFunding w db h) refl

-- Only webhooks may differ.
record SameMoney (s t : Db) : Type 0 where
  users : t.users ≡ s.users
  accounts : t.accounts ≡ s.accounts
  books : t.books ≡ s.books

mark_failed-SameMoney : (id : ℕ) (db : Db) → SameMoney db (mark_failed id db)
unfolding update_webhook
mark_failed-SameMoney id db = record {
  users = ground arith;
  accounts = ground arith;
  books = ground arith;
}

update_webhook_missing :
    (id : ℕ) (f : WebhookEvent → WebhookEvent) (db : Db)
    → find webhook_key id db.webhooks ≡ none
    → update_webhook id f db ≡ db
unfolding update_webhook
update_webhook_missing id f db e = ground arith

failed_event : WebhookEvent → WebhookEvent
failed_event w = record w { processed = true; has_error = true }

mark_failed-IsDone :
    (id : ℕ) (db : Db) (w : WebhookEvent)
    → find webhook_key id db.webhooks ≡ some w
    → IsDone id (mark_failed id db)
mark_failed-IsDone id db w e =
    update_webhook-IsDone id (λ w. record w { processed = true; has_error = true }) db w
      (λ w. (refl, refl)) e

-- An event is as it was, or done.
mark_failed-cases :
    (i j : ℕ) (db : Db)
    → (find webhook_key i (mark_failed j db).webhooks ≡ find webhook_key i db.webhooks)
      ⊎ IsDone i (mark_failed j db)
unfolding failed_event
mark_failed-cases i j db = elim (Option-cases (find webhook_key j db.webhooks)) [
  | inl missing ↦
      inl (
        ap (λ db. find webhook_key i db.webhooks)
          (update_webhook_missing j failed_event db missing))
  | inr (v, f) ↦ elim (Bool-cases (j == i)) [
    | inl hit ↦
        inr (subst (λ n. IsDone n (mark_failed j db)) (ground arith) (mark_failed-IsDone j db v f))
    | inr miss ↦
        let k = key-find webhook_key j db.webhooks v f in
        inl (
          ap (find webhook_key i) (update_webhook-webhooks j failed_event db v f)
          ∙ find-replace_ne webhook_key i (failed_event v) db.webhooks
              (λ same. absurd (ground (arith, k, same))))
  ]
]

mark_failed-keeps : (i j : ℕ) (db : Db) → IsDone i db → IsDone i (mark_failed j db)
mark_failed-keeps i j db (w, e, p) = elim (mark_failed-cases i j db) [
  | inl same ↦ (w, same ∙ e, p)
  | inr done ↦ done
]

-- The event is in the table.
abbrev pub IsKnown : Db → WebhookEvent → Type 0
IsKnown db w = (v : WebhookEvent) × (find webhook_key w.id db.webhooks ≡ some v)

mark_failed-IsKnown :
    (j : ℕ) (db : Db) (w : WebhookEvent) → IsKnown db w → IsKnown (mark_failed j db) w
mark_failed-IsKnown j db w (v, e) = elim (mark_failed-cases w.id j db) [
  | inl same ↦ (v, same ∙ e)
  | inr (v', e', p) ↦ (v', e')
]

mark_failed-AllKnown :
    (j : ℕ) (db : Db) (ws : List WebhookEvent)
    → All (IsKnown db) ws
    → All (IsKnown (mark_failed j db)) ws
mark_failed-AllKnown j db [] h = tt
mark_failed-AllKnown j db (w ∷ ws) h =
    (mark_failed-IsKnown j db w h.0, mark_failed-AllKnown j db ws h.1)

process_each-keeps :
    (i : ℕ) (start : Db) (ws : List WebhookEvent) (db : Db)
    → All IsFunding ws
    → IsDone i db
    → IsDone i (process_each start ws 0 db).1
unfolding process_each
process_each-keeps i start [] db h d = d
process_each-keeps i start (w ∷ ws) db h d =
    rw (process_event-IsFunding w db h.0)
      (process_each-keeps i start ws (mark_failed w.id db) h.1 (mark_failed-keeps i w.id db d))

process_each-IsFunding :
    (start : Db) (w : WebhookEvent) (ws : List WebhookEvent) (count : ℕ) (db : Db)
    → IsFunding w
    → process_each start (w ∷ ws) count db ≡ process_each start ws count (mark_failed w.id db)
unfolding process_each
process_each-IsFunding start w ws count db h = rw (process_event-IsFunding w db h) refl

process_each-AllDone :
    (start : Db) (ws : List WebhookEvent) (db : Db)
    → All IsFunding ws
    → All (IsKnown db) ws
    → All (λ w. IsDone w.id (process_each start ws 0 db).1) ws
process_each-AllDone start [] db h k = tt
process_each-AllDone start (w ∷ ws) db h k =
    subst (λ (run : ℕ × Db). All (λ v. IsDone v.id run.1) (w ∷ ws))
      (sym (process_each-IsFunding start w ws 0 db h.0))
      (
        process_each-keeps w.id start ws (mark_failed w.id db) h.1
            (mark_failed-IsDone w.id db k.0.0 k.0.1),
        process_each-AllDone start ws (mark_failed w.id db) h.1
            (mark_failed-AllKnown w.id db ws k.1),
      )

process_each-SameMoney :
    (start : Db) (ws : List WebhookEvent) (db : Db)
    → All IsFunding ws
    → ((process_each start ws 0 db).0 ≡ 0) × SameMoney db (process_each start ws 0 db).1
unfolding process_each
process_each-SameMoney start [] db h =
    (refl, record { users = refl; accounts = refl; books = refl })
process_each-SameMoney start (w ∷ ws) db h =
    let here = mark_failed-SameMoney w.id db in
    let (zero, rest) = process_each-SameMoney start ws (mark_failed w.id db) h.1 in
    rw (process_event-IsFunding w db h.0) (
      zero,
      record {
        users = rest.users ∙ here.users;
        accounts = rest.accounts ∙ here.accounts;
        books = rest.books ∙ here.books;
      },
    )

All-done :
    (db : Db) (ws : List WebhookEvent)
    → All (λ w. IsDone w.id db) ws
    → All (λ w. process_webhook_event w.id db ≡ (ok already_processed, db)) ws
All-done db [] h = tt
All-done db (w ∷ ws) h = (process_webhook_event_done w.id db h.0, All-done db ws h.1)

-- If all that the sweep fetches are complete fundings of virtual accounts, in the table under their
-- ids, then it reports none processed and credits nobody: no user, account or balance changes. Yet
-- every one of them is marked as processed, so that the task for it will do nothing.
pub process_pending_funding :
    (ws : List WebhookEvent) (db : Db)
    → get_unprocessed 100 db ≡ ws
    → All IsFunding ws
    → All (IsKnown db) ws
    → let (r, db') = process_pending_webhooks db in
      (r ≡ ok 0)
      × (db'.users ≡ db.users)
      × (db'.accounts ≡ db.accounts)
      × (db'.books ≡ db.books)
      × All (λ w. process_webhook_event w.id db' ≡ (ok already_processed, db')) ws
unfolding process_pending_webhooks
process_pending_funding ws db e h k =
    let (none_done, same) = process_each-SameMoney db ws db h in
    rw e (
      ap ok none_done,
      same.users,
      same.accounts,
      same.books,
      All-done _ ws (process_each-AllDone db ws db h k),
    )
