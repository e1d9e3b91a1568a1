-- ===== src/Sync/Steps.antt =====
-- What one entry of a batch does to the database.
use offimesh.Prelude.{
  ℕ, ltb_ℤ, leb, ◌⊎◌, ◌≡◌, refl, Bool, true, false, some, ◌∷◌, find, is_some, arith, Bool-cases,
  Option-cases, inl, inr,
}
use offimesh.Exceptions.{Action, Result, ok, err, type_error}
use offimesh.Models.{
  Db, OfflineToken, unused, user_key, device_key, tx_key, is_expired, naive, aware, DateTime, hours,
}
use offimesh.Tokens.{is_active}
use offimesh.Sync.Cache.{
  Redis, World, check_and_store_nonce, get_last_sequence, set_last_sequence, nonce_key, seq_key,
}
use offimesh.Sync.Requests.{
  TxData, Field, Request, Checked, lacking, complete, required, Outcome, accepted,
}
use offimesh.Sync.{
  public_key, nonce_of, new_transaction, create_transaction, charge, accept, is_stale, check_replay,
  check_device, check_parties, check_active, check_token, exists_by_tx_id,
  process_single_transaction,
}

abbrev pub is_accepted : Result Outcome → Bool
is_accepted (ok accepted) = true
is_accepted _ = false

-- The database after an accepted entry.
abbrev pub taken : Request → OfflineToken → Db → Db
taken r token db =
    charge r token (record db { transactions = new_transaction r token ∷ db.transactions })

-- An entry either leaves the database alone, or is accepted and charges an active token with an
-- amount that fits, under a new transaction and a new nonce.
pub data Effect : Result Outcome → Db → Db → Type 0 where
  nothing : {o : Result Outcome} → {db : Db} → is_accepted o ≡ false → Effect o db db
  takes :
      {db : Db}
      → (r : Request) → (token : OfflineToken) → find public_key r.token_id db.tokens ≡ some token
      → is_active token.status ≡ true
      → ltb_ℤ (unused token) r.amount_kobo ≡ false
      → is_some (find tx_key r.tx_id db.transactions) ≡ false
      → is_some (find nonce_of r.nonce db.transactions) ≡ false
      → Effect (ok accepted) db (taken r token db)

expiry : (t : DateTime) → ((x : ℕ) × (t ≡ aware x)) ⊎ ((x : ℕ) × (t ≡ naive x))
expiry (aware x) = inl (x, refl)
expiry (naive x) = inr (x, refl)

-- `datetime.utcnow()` against an aware and a naive expiry.
pub is_expired_aware :
    {S : Type 0} (t : OfflineToken) (now x : ℕ) (s : S)
    → t.expires_at ≡ aware x
    → is_expired t now s ≡ (err type_error, s)
unfolding is_expired
is_expired_aware t now x s e = ground arith

is_expired_naive :
    {S : Type 0} (t : OfflineToken) (now x : ℕ) (s : S)
    → t.expires_at ≡ naive x
    → is_expired t now s ≡ (ok (leb x now), s)
unfolding is_expired
is_expired_naive t now x s e = ground arith

Checked-cases : (c : Checked) → ((f : Field) × (c ≡ lacking f)) ⊎ ((r : Request) × (c ≡ complete r))
Checked-cases (lacking f) = inl (f, refl)
Checked-cases (complete r) = inr (r, refl)

module _ {C : Type 0} (redis : Redis C) where
  -- The effect of an action on a database, whatever Redis holds.
  abbrev pub Does : Db → Action (World C) Outcome → Type 0
  Does db m = (c : C) → let (o, w) = m (record { db = db; cache = c }) in Effect o db w.db

  accept-Does :
      (r : Request) (token : OfflineToken) (device : ℕ) (db : Db)
      → find public_key r.token_id db.tokens ≡ some token
      → is_active token.status ≡ true
      → ltb_ℤ (unused token) r.amount_kobo ≡ false
      → Does db (accept redis r token device)
  unfolding accept create_transaction set_last_sequence
  accept-Does r token device db e live fits c =
      elim (Bool-cases (is_some (find tx_key r.tx_id db.transactions))) [
        | inl known ↦ rw known (nothing refl)
        | inr new ↦ elim (Bool-cases (is_some (find nonce_of r.nonce db.transactions))) [
          | inl used ↦ rw (new, used) (nothing refl)
          | inr fresh ↦ rw (new, fresh) (takes r token e live fits new fresh)
        ]
      ]

  check_replay-Does :
      (r : Request) (token : OfflineToken) (device : ℕ) (db : Db)
      → find public_key r.token_id db.tokens ≡ some token
      → is_active token.status ≡ true
      → ltb_ℤ (unused token) r.amount_kobo ≡ false
      → Does db (check_replay redis r token device)
  unfolding check_replay check_and_store_nonce get_last_sequence
  check_replay-Does r token device db e live fits c =
      let key = nonce_key r.nonce in
      let stored = redis.expire key (hours 48) (redis.setnx key c).1 in
      elim (Bool-cases (redis.setnx key c).0) [
        | inr seen ↦ rw seen (nothing refl)
        | inl fresh ↦
            elim (Bool-cases
              (is_stale redis (redis.get (seq_key device r.token_id) stored) r.sequence_number)) [
                | inl stale ↦ rw (fresh, stale) (nothing refl)
                | inr new ↦ rw (fresh, new) (accept-Does r token device db e live fits stored)
              ]
      ]

  check_device-Does :
      (r : Request) (token : OfflineToken) (db : Db)
      → find public_key r.token_id db.tokens ≡ some token
      → is_active token.status ≡ true
      → ltb_ℤ (unused token) r.amount_kobo ≡ false
      → Does db (check_device redis r token)
  unfolding check_device
  check_device-Does r token db e live fits c = elim (Option-cases r.payer_device_id) [
    | inl absent ↦ rw absent (nothing refl)
    | inr (i, given) ↦ elim (Option-cases (find device_key i db.devices)) [
      | inl unknown ↦ rw (given, unknown) (nothing refl)
      | inr (device, known) ↦
          rw (given, known) (check_replay-Does r token device.id db e live fits c)
    ]
  ]

  check_parties-Does :
      (r : Request) (token : OfflineToken) (db : Db)
      → find public_key r.token_id db.tokens ≡ some token
      → is_active token.status ≡ true
      → ltb_ℤ (unused token) r.amount_kobo ≡ false
      → Does db (check_parties redis r token)
  unfolding check_parties
  check_parties-Does r token db e live fits c =
      elim (Bool-cases (is_some (find user_key r.payer_user_id db.users))) [
        | inr no_payer ↦ rw no_payer (nothing refl)
        | inl payer ↦ elim (Bool-cases (is_some (find user_key r.payee_user_id db.users))) [
          | inr no_payee ↦ rw (payer, no_payee) (nothing refl)
          | inl payee ↦ rw (payer, payee) (check_device-Does r token db e live fits c)
        ]
      ]

  check_active-Does :
      (r : Request) (token : OfflineToken) (now : ℕ) (db : Db)
      → find public_key r.token_id db.tokens ≡ some token
      → is_active token.status ≡ true
      → Does db (check_active redis r token now)
  unfolding check_active
  check_active-Does r token now db e live c = elim (expiry token.expires_at) [
    | inl (x, k) ↦
        rw (is_expired_aware {S = World C} token now x (record { db = db; cache = c }) k)
          (nothing refl)
    | inr (x, k) ↦
        rw (is_expired_naive {S = World C} token now x (record { db = db; cache = c }) k)
          (elim (Bool-cases (leb x now)) [
            | inl dead ↦ rw dead (nothing refl)
            | inr alive ↦ elim (Bool-cases (ltb_ℤ (unused token) r.amount_kobo)) [
              | inl over ↦ rw (alive, over) (nothing refl)
              | inr fits ↦ rw (alive, fits) (check_parties-Does r token db e live fits c)
            ]
          ])
  ]

  check_token-Does : (r : Request) (now : ℕ) (db : Db) → Does db (check_token redis r now)
  unfolding check_token
  check_token-Does r now db c = elim (Option-cases (find public_key r.token_id db.tokens)) [
    | inl unknown ↦ rw unknown (nothing refl)
    | inr (token, e) ↦ elim (Bool-cases (is_active token.status)) [
      | inl live ↦ rw (e, live) (check_active-Does r token now db e live c)
      | inr shut ↦ rw (e, shut) (nothing refl)
    ]
  ]

  -- Whatever its branch, an entry has one of the two effects.
  pub process_single_transaction-Does :
      (tx : TxData) (now : ℕ) (db : Db) → Does db (process_single_transaction redis tx now)
  unfolding process_single_transaction
  process_single_transaction-Does tx now db c =
      elim (Bool-cases (exists_by_tx_id redis tx.tx_id db)) [
        | inl known ↦ rw known (nothing refl)
        | inr new ↦ elim (Checked-cases (required tx)) [
          | inl (field, e) ↦ rw (new, e) (nothing refl)
          | inr (r, e) ↦ rw (new, e) (check_token-Does r now db c)
        ]
      ]
