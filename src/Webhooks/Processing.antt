-- ===== src/Webhooks/Processing.antt =====
-- What one run of the processing task leaves.
use offimesh.Prelude.{
  ℕ, ◌≡◌, refl, ap, ◌∙◌, sym, subst, true, false, Option, none, some, if◌then◌else◌, find,
  find-replace_self, replace, key-find, inl, inr, ◌⊎◌, Bool-cases, Option-cases, arith,
}
use offimesh.Exceptions.{Result, ok, err, Error, pure, ◌>>◌, session, commit_or_rollback, continue}
use offimesh.Models.{Db, WebhookEvent, webhook_key}
use offimesh.Webhooks.{
  update_webhook, mark_processed, close_event, dispatch, except, process_event, TaskStatus,
  not_found_status, already_processed, processed_status, process_found, process_webhook_event,
}
use offimesh.Webhooks.Keeps.{dispatch-Keeps}

-- The event is in the table and marked as processed.
abbrev pub IsDone : ℕ → Db → Type 0
IsDone id db =
    (w : WebhookEvent) × (find webhook_key id db.webhooks ≡ some w) × (w.processed ≡ true)

-- An update that sets the mark and keeps the id.
abbrev pub Marks : (WebhookEvent → WebhookEvent) → Type 0
Marks f = (w : WebhookEvent) → ((f w).id ≡ w.id) × ((f w).processed ≡ true)

pub update_webhook-webhooks :
    (id : ℕ) (f : WebhookEvent → WebhookEvent) (db : Db) (w : WebhookEvent)
    → find webhook_key id db.webhooks ≡ some w
    → (update_webhook id f db).webhooks ≡ replace webhook_key (f w) db.webhooks
unfolding update_webhook
update_webhook-webhooks id f db w e = ground arith

pub update_webhook-IsDone :
    (id : ℕ) (f : WebhookEvent → WebhookEvent) (db : Db) (w : WebhookEvent)
    → Marks f
    → find webhook_key id db.webhooks ≡ some w
    → IsDone id (update_webhook id f db)
update_webhook-IsDone id f db w h e =
    let k : (f w).id ≡ id = (h w).0 ∙ key-find webhook_key id db.webhooks w e in
    (
      f w,
      ap (find webhook_key id) (update_webhook-webhooks id f db w e)
          ∙ subst (λ n. find webhook_key n (replace webhook_key (f w) db.webhooks) ≡ some (f w)) k
              (find-replace_self webhook_key (f w) db.webhooks w
                (subst (λ n. find webhook_key n db.webhooks ≡ some w) (sym k) e)),
      (h w).1,
    )

-- The task once the event is looked up.
run_found :
    (id : ℕ) (db : Db) (o : Option WebhookEvent)
    → find webhook_key id db.webhooks ≡ o
    → process_webhook_event id db ≡ session (process_found o) db
unfolding process_webhook_event
run_found id db o e = ap (λ o. session (process_found o) db) e

found_done :
    (w : WebhookEvent) (db : Db)
    → w.processed ≡ true
    → process_found (some w) db ≡ (ok already_processed, db)
unfolding process_found
found_done w db p = rw p refl

pub process_webhook_event_done :
    (id : ℕ) (db : Db) → IsDone id db → process_webhook_event id db ≡ (ok already_processed, db)
process_webhook_event_done id db (w, e, p) =
    run_found id db (some w) e ∙ ap (commit_or_rollback db) (found_done w db p)

-- Either the run raised and left the tables, or another run returns and leaves them.
record IsSettled (id : ℕ) (db : Db) (run : Result TaskStatus × Db) : Type 0 where
  settles :
      ((e : Error) × (run ≡ (err e, db)))
      ⊎ ((s : TaskStatus) × (s' : TaskStatus) × (run.0 ≡ ok s)
          × (process_webhook_event id run.1 ≡ (ok s', run.1)))

returned :
    (id : ℕ) (db : Db) (s : TaskStatus)
    → process_webhook_event id db ≡ (ok s, db)
    → IsSettled id db (ok s, db)
returned id db s e = record { settles = inr (s, s, refl, e) }

raised : (id : ℕ) (db : Db) (e : Error) → IsSettled id db (err e, db)
raised id db e = record { settles = inl (e, refl) }

-- The session around the end of `process_event`.
abbrev closed_session : Db → Result (Unit {0}) × Db → Result TaskStatus × Db
closed_session db run = commit_or_rollback db (continue run.0 (λ _. pure processed_status) run.1)

except_rolled_back :
    (i : ℕ) (db db1 : Db) (e : Error) → closed_session db (except i e db1) ≡ (err e, db)
except_rolled_back i db db1 e = refl

except-IsSettled :
    (id i : ℕ) (db db1 : Db) (e : Error) → IsSettled id db (closed_session db (except i e db1))
except-IsSettled id i db db1 e =
    subst (IsSettled id db) (sym (except_rolled_back i db db1 e)) (raised id db e)

close_event-IsSettled :
    (w : WebhookEvent) (db db1 : Db) (r : Result (Unit {0}))
    → db1.webhooks ≡ db.webhooks
    → find webhook_key w.id db.webhooks ≡ some w
    → IsSettled w.id db (closed_session db (close_event w.id r db1))
close_event-IsSettled w db db1 (ok _) same e =
    let done =
      update_webhook-IsDone w.id (λ w. record w { processed = true }) db1 w (λ w. (refl, refl))
        (ap (find webhook_key w.id) same ∙ e) in
    record {
      settles = inr (
        processed_status,
        already_processed,
        refl,
        process_webhook_event_done w.id (mark_processed w.id db1) done,
      );
    }
close_event-IsSettled w db db1 (err x) same e = except-IsSettled w.id w.id db db1 x

found-IsSettled :
    (w : WebhookEvent) (db : Db)
    → w.processed ≡ false
    → find webhook_key w.id db.webhooks ≡ some w
    → IsSettled w.id db (session (process_found (some w)) db)
unfolding process_found process_event
found-IsSettled w db p e =
    let run = dispatch w.event_type w.payload db in
    subst
      (λ b. IsSettled w.id db (
        commit_or_rollback db
          ((if b then pure already_processed else (process_event w >> pure processed_status)) db)))
      (sym p)
      (close_event-IsSettled w db run.1 run.0
        ((dispatch-Keeps w.event_type w.payload).at db).webhooks e)

process_webhook_event-IsSettled : (id : ℕ) (db : Db) → IsSettled id db (process_webhook_event id db)
unfolding process_found
process_webhook_event-IsSettled id db = elim (Option-cases (find webhook_key id db.webhooks)) [
  | inl missing ↦
      let run = run_found id db none missing in
      subst (IsSettled id db) (sym run) (returned id db not_found_status run)
  | inr (w, e) ↦
      let k = key-find webhook_key id db.webhooks w e in
      subst (IsSettled id db) (sym (run_found id db (some w) e)) (elim (Bool-cases w.processed) [
        | inl done ↦
            subst (IsSettled id db) (sym (ap (commit_or_rollback db) (found_done w db done)))
              (returned id db already_processed (process_webhook_event_done id db (w, e, done)))
        | inr fresh ↦
            subst (λ n. IsSettled n db (session (process_found (some w)) db)) k
              (found-IsSettled w db fresh
                (subst (λ n. find webhook_key n db.webhooks ≡ some w) (sym k) e))
      ])
]

-- A run of the task either raises, and its session leaves the tables as they are, or returns, and
-- then another run for the same event on the tables that it leaves returns too and changes nothing:
-- the event is not handled twice.
pub process_webhook_event_again :
    (id : ℕ) (db : Db)
    → let (r, db') = process_webhook_event id db in
      ((e : Error) × (process_webhook_event id db ≡ (err e, db)))
      ⊎ ((s : TaskStatus) × (s' : TaskStatus) × (r ≡ ok s)
          × (process_webhook_event id db' ≡ (ok s', db')))
process_webhook_event_again id db = (process_webhook_event-IsSettled id db).settles
