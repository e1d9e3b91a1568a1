-- ===== src/Sync/Batches.antt =====
-- What holds before and after every entry holds before and after a batch.
use offimesh.Prelude.{
  ℕ, ltb, ◌≡◌, refl, true, false, some, List, [], ◌∷◌, find, length, Bool-cases, Option-cases, inl,
  inr,
}
use offimesh.Exceptions.{Action, Result, ok, err, type_error, continue, ◌>>◌, pure, modify}
use offimesh.Models.{Db, device_key, OfflineToken, aware, logged, batch_synced, Device}
use offimesh.Tokens.{is_active}
use offimesh.Sync.Cache.{Redis, World, on_db, request}
use offimesh.Sync.Requests.{
  TxData, Request, complete, required, Outcome, BatchReply, count_accepted, count_rejected,
}
use offimesh.Sync.{
  exists_by_tx_id, process_single_transaction, process_all, sync_batch, check_token, check_active,
  public_key,
}
use offimesh.Sync.Steps.{Effect, process_single_transaction-Does, is_expired_aware}

module _ {C : Type 0} (redis : Redis C) where
  module _ (P : Db → Type 0)
      (step : (o : Result Outcome) (d d' : Db) → Effect o d d' → P d → P d') where
    then_pure :
        {A B : Type 0} (r : Result A) (f : A → B) (w : World C)
        → P w.db
        → P (continue r (λ a. pure (f a)) w).1.db
    then_pure (ok a) f w h = h
    then_pure (err e) f w h = h

    continue-keeps :
        (o : Result Outcome) (f : Outcome → Action (World C) (List Outcome)) (w : World C)
        → ((x : Outcome) → P (f x w).1.db)
        → P w.db
        → P (continue o f w).1.db
    continue-keeps (ok x) f w k h = k x
    continue-keeps (err e) f w k h = h

    -- A predicate that every entry keeps, accepted or not, is kept by all entries, whether or not
    -- one of them raises.
    pub process_all-keeps :
        (txs : List TxData) (now : ℕ) (w : World C) → P w.db → P (process_all redis txs now w).1.db
    unfolding process_all
    process_all-keeps [] now w h = h
    process_all-keeps (tx ∷ txs) now w h =
        let (o, w') = process_single_transaction redis tx now w in
        let h' = step o w.db w'.db (process_single_transaction-Does redis tx now w.db w.cache) h in
        continue-keeps o _ w'
          (λ x.
            then_pure (process_all redis txs now w').0 (λ rest. x ∷ rest)
              (process_all redis txs now w').1 (process_all-keeps txs now w' h'))
          h'

    finish-keeps :
        (rs : Result (List Outcome)) (b n : ℕ) (w : World C)
        → ((db : Db) → P db → P (logged batch_synced b db))
        → P w.db
        → P
            (continue {B = BatchReply} rs
              (λ results.
                on_db (modify (logged batch_synced b))
                >> pure (record {
                  processed = n;
                  accepted_count = count_accepted results;
                  rejected_count = count_rejected results;
                  results = results;
                }))
              w).1.db
    finish-keeps (ok results) b n w log h = log w.db h
    finish-keeps (err e) b n w log h = h

    pub sync_batch-keeps :
        (b device_id : ℕ) (txs : List TxData) (now : ℕ) (w : World C)
        → ((db : Db) → P db → P (logged batch_synced b db))
        → P w.db
        → P (sync_batch redis b device_id txs now w).1.db
    unfolding sync_batch
    sync_batch-keeps b device_id txs now w log h = elim (Bool-cases (ltb 100 (length txs))) [
      | inl big ↦ rw big h
      | inr fits ↦ elim (Option-cases (find device_key device_id w.db.devices)) [
        | inl unknown ↦ rw (fits, unknown) h
        | inr (device, known) ↦
            rw (fits, known)
              (finish-keeps (process_all redis txs now w).0 b (length txs)
                (process_all redis txs now w).1 log (process_all-keeps txs now w h))
      ]
    ]

  check_token_aware :
      (r : Request) (now x : ℕ) (w : World C) (token : OfflineToken)
      → find public_key r.token_id w.db.tokens ≡ some token
      → is_active token.status ≡ true
      → token.expires_at ≡ aware x
      → check_token redis r now w ≡ (err type_error, w)
  unfolding check_token check_active
  check_token_aware r now x w token e live k =
      rw (e, live, is_expired_aware {S = World C} token now x w k) refl

  -- A batch of at most 100 entries from a known device, whose first entry is new, has every field
  -- and names an active token, fails if the expiry of the token has a time zone, as that column's
  -- values do: the naive clock of `is_expired` raises `TypeError` against it, and the request ends
  -- with the database and Redis as they were.
  pub sync_batch_aware :
      (b device_id : ℕ) (tx : TxData) (txs : List TxData) (now x : ℕ) (w : World C)
      (device : Device) (r : Request) (token : OfflineToken)
      → ltb 100 (length (tx ∷ txs)) ≡ false
      → find device_key device_id w.db.devices ≡ some device
      → exists_by_tx_id redis tx.tx_id w.db ≡ false
      → required tx ≡ complete r
      → find public_key r.token_id w.db.tokens ≡ some token
      → is_active token.status ≡ true
      → token.expires_at ≡ aware x
      → request (sync_batch redis b device_id (tx ∷ txs) now) w ≡ (err type_error, w)
  unfolding sync_batch process_all process_single_transaction
  sync_batch_aware b device_id tx txs now x w device r token e1 e2 e3 e4 e5 e6 e7 =
      let e = check_token_aware r now x w token e5 e6 e7 in rw (e1, e2, e3, e4, e) refl
