-- ===== src/Webhooks/Deliveries.antt =====
-- What `handle_webhook` stores, and which fields of a delivery are authenticated.
use offimesh.Prelude.{
  ℕ, ◌≡◌, refl, ap, ◌∙◌, sym, subst, false, Option, none, some, List, [], ◌∷◌, ◌==◌, find, inl, inr,
  ◌⊎◌, Bool-cases, Option-cases, arith,
}
use offimesh.Exceptions.{Action, Result, ok, err, is_ok, ok-injective}
use offimesh.Models.{Db, logged, webhook_received, WebhookEvent, request_key, Payload}
use offimesh.Webhooks.{request_id_of, new_event, store, handle_webhook}
use offimesh.Webhooks.Signatures.{Body, Signing, build_signing_string, verify_signature}

-- One call of the endpoint.
pub record Delivery : Type 0 where
  pub body : Option Body
  pub signature : ℕ
  pub timestamp : ℕ
  pub id : ℕ

abbrev pub deliver : Signing → Delivery → Action Db WebhookEvent
deliver g d = handle_webhook g d.body d.signature d.timestamp d.id

-- Deliveries one after the other; the endpoint commits after each.
unfoldable pub deliver_all : Signing → List Delivery → Db → Db
deliver_all g [] db = db
deliver_all g (d ∷ ds) db = deliver_all g ds (deliver g d db).1

abbrev pub IsStored : ℕ → Db → Type 0
IsStored request_id db = (w : WebhookEvent) × (find request_key request_id db.webhooks ≡ some w)

handle_webhook-stored :
    (g : Signing) (body : Body) (signature timestamp id request_id : ℕ) (w : WebhookEvent) (db : Db)
    → request_id_of body ≡ some request_id
    → find request_key request_id db.webhooks ≡ some w
    → let (r, db') = handle_webhook g (some body) signature timestamp id db in
      (is_ok r ≡ false) × (db' ≡ db)
unfolding handle_webhook
handle_webhook-stored g body signature timestamp id request_id w db e f =
    elim (Bool-cases (verify_signature g body signature timestamp)) [
      | inr bad ↦ rw bad (refl, refl)
      | inl good ↦ rw good (rw e (rw f (refl, refl)))
    ]

-- The tables once `e` is stored.
abbrev received : WebhookEvent → Db → Db
received e db = logged webhook_received e.request_id (store e db)

-- A delivery raises and leaves the tables, or stores its event.
record HasEffect (db : Db) (run : Result WebhookEvent × Db) : Type 0 where
  writes :
      ((is_ok run.0 ≡ false) × (run.1 ≡ db))
      ⊎ ((e : WebhookEvent) × (run.0 ≡ ok e) × (run.1 ≡ received e db))

handle_webhook-HasEffect :
    (g : Signing) (body : Option Body) (signature timestamp id : ℕ) (db : Db)
    → HasEffect db (handle_webhook g body signature timestamp id db)
unfolding handle_webhook
handle_webhook-HasEffect g none signature timestamp id db = record { writes = inl (refl, refl) }
handle_webhook-HasEffect g (some body) signature timestamp id db =
    elim (Bool-cases (verify_signature g body signature timestamp)) [
      | inr bad ↦ rw bad (record { writes = inl (refl, refl) })
      | inl good ↦ rw good (elim (Option-cases (request_id_of body)) [
        | inl missing ↦ rw missing (record { writes = inl (refl, refl) })
        | inr (i, e) ↦ rw e (elim (Option-cases (find request_key i db.webhooks)) [
          | inl fresh ↦ rw fresh (record { writes = inr (new_event id i body, refl, refl) })
          | inr (w, f) ↦ rw f (record { writes = inl (refl, refl) })
        ])
      ])
    ]

received-IsStored :
    (request_id : ℕ) (e : WebhookEvent) (db : Db)
    → IsStored request_id db
    → IsStored request_id (received e db)
received-IsStored request_id e db (w, f) = elim (Bool-cases (e.request_id == request_id)) [
  | inl hit ↦ (e, ground arith)
  | inr miss ↦ (w, ground arith)
]

received_self :
    (e : WebhookEvent) (db : Db) → find request_key e.request_id (received e db).webhooks ≡ some e
received_self e db = ground arith

handle_webhook-keeps :
    (g : Signing) (d : Delivery) (request_id : ℕ) (db : Db)
    → IsStored request_id db
    → IsStored request_id (deliver g d db).1
handle_webhook-keeps g d request_id db h =
    elim ((handle_webhook-HasEffect g d.body d.signature d.timestamp d.id db).writes) [
      | inl (_, same) ↦ subst (IsStored request_id) (sym same) h
      | inr (e, _, stored) ↦
          subst (IsStored request_id) (sym stored) (received-IsStored request_id e db h)
    ]

deliver_all-keeps :
    (g : Signing) (ds : List Delivery) (request_id : ℕ) (db : Db)
    → IsStored request_id db
    → IsStored request_id (deliver_all g ds db)
unfolding deliver_all
deliver_all-keeps g [] request_id db h = h
deliver_all-keeps g (d ∷ ds) request_id db h =
    deliver_all-keeps g ds request_id (deliver g d db).1 (handle_webhook-keeps g d request_id db h)

deliver-IsStored :
    (g : Signing) (d : Delivery) (e : WebhookEvent) (db : Db)
    → (deliver g d db).0 ≡ ok e
    → IsStored e.request_id (deliver g d db).1
deliver-IsStored g d e db h =
    elim ((handle_webhook-HasEffect g d.body d.signature d.timestamp d.id db).writes) [
      | inl (raised, _) ↦ absurd (ground arith)
      | inr (e', returned, stored) ↦
          let same : e' ≡ e = ok-injective e' e (sym returned ∙ h) in
          subst (λ i. IsStored i (deliver g d db).1) (ap (λ e. e.request_id) same)
            (subst (IsStored e'.request_id) (sym stored) (e', received_self e' db))
    ]

-- Once a delivery has returned an event, then after whatever deliveries, genuine or forged, every
-- delivery whose body carries the same request id raises and leaves the tables as they are, whatever
-- its signature, its time and the rest of its body.
pub handle_webhook_again :
    (g : Signing) (d : Delivery) (ds : List Delivery) (e : WebhookEvent) (db : Db)
    → (deliver g d db).0 ≡ ok e
    → (body : Body) (signature timestamp id : ℕ) → request_id_of body ≡ some e.request_id
    → let db' = deliver_all g ds (deliver g d db).1 in
      (is_ok (handle_webhook g (some body) signature timestamp id db').0 ≡ false)
      × ((handle_webhook g (some body) signature timestamp id db').1 ≡ db')
handle_webhook_again g d ds e db h body signature timestamp id same =
    let db' = deliver_all g ds (deliver g d db).1 in
    let stored =
      deliver_all-keeps g ds e.request_id (deliver g d db).1 (deliver-IsStored g d e db h) in
    handle_webhook-stored g body signature timestamp id e.request_id stored.0 db' same stored.1

-- The payload of `body` with the values of `forged` in the fields that are not signed.
abbrev pub with_unsigned : Payload → Body → Body
with_unsigned forged body = record body {
  payload = record forged {
    transaction_id = body.payload.transaction_id;
    response_code = body.payload.response_code;
  };
}

-- The stored event, if there is one, with another payload.
with_payload : Payload → Result WebhookEvent → Result WebhookEvent
with_payload payload (ok e) = ok (record e { payload = payload })
with_payload payload (err x) = err x

verify_signature_unsigned :
    (g : Signing) (body : Body) (forged : Payload) (signature timestamp : ℕ)
    → verify_signature g (with_unsigned forged body) signature timestamp
      ≡ verify_signature g body signature timestamp
unfolding verify_signature build_signing_string
verify_signature_unsigned g body forged signature timestamp = refl

handle_webhook-with_unsigned :
    (g : Signing) (body : Body) (forged : Payload) (signature timestamp id : ℕ) (db : Db)
    → (handle_webhook g (some (with_unsigned forged body)) signature timestamp id db).0
      ≡ with_payload
          (with_unsigned forged body).payload
          (handle_webhook g (some body) signature timestamp id db).0
unfolding handle_webhook with_payload
handle_webhook-with_unsigned g body forged signature timestamp id db =
    rw (verify_signature_unsigned g body forged signature timestamp)
      (elim (Bool-cases (verify_signature g body signature timestamp)) [
        | inr bad ↦ rw bad refl
        | inl good ↦ rw good (elim (Option-cases (request_id_of body)) [
          | inl missing ↦ rw missing refl
          | inr (i, e) ↦ rw e (elim (Option-cases (find request_key i db.webhooks)) [
            | inl fresh ↦ rw fresh refl
            | inr (w, f) ↦ rw f refl
          ])
        ])
      ])

-- The signature covers neither the amount, nor the virtual account or the transaction that a
-- webhook is about: where a body is accepted, the same body with any other values there is accepted
-- with the same signature, and the event has those values.
pub handle_webhook_unsigned :
    (g : Signing) (body : Body) (forged : Payload) (signature timestamp id : ℕ) (e : WebhookEvent)
    (db : Db)
    → (handle_webhook g (some body) signature timestamp id db).0 ≡ ok e
    → (handle_webhook g (some (with_unsigned forged body)) signature timestamp id db).0
      ≡ ok (record e { payload = (with_unsigned forged body).payload })
unfolding with_payload
handle_webhook_unsigned g body forged signature timestamp id e db h =
    handle_webhook-with_unsigned g body forged signature timestamp id db
    ∙ ap (with_payload (with_unsigned forged body).payload) h
