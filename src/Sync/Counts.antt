-- ===== src/Sync/Counts.antt =====
-- The counts that a batch reports.
use offimesh.Prelude.{
  ℕ, suc, ◌+◌, ltb, ◌≡◌, refl, ap, subst, sym, List, [], ◌∷◌, find, length, arith, Bool-cases,
  Option-cases, inl, inr,
}
use offimesh.Exceptions.{Action, Result, ok, err, continue, ◌>>◌, pure, modify, ok-injective}
use offimesh.Models.{Db, device_key, logged, batch_synced}
use offimesh.Sync.Cache.{Redis, World, on_db}
use offimesh.Sync.Requests.{
  TxData, Outcome, accepted, rejected, duplicate, BatchReply, count_accepted, count_rejected,
}
use offimesh.Sync.{process_single_transaction, process_all, sync_batch, charge}
use offimesh.Sync.Steps.{Effect, nothing, takes, process_single_transaction-Does}

-- `n` outcomes, of which as many are `accepted` as there are rows more than before.
abbrev IsCounted : ℕ → ℕ → Result (List Outcome) → ℕ → Type 0
IsCounted n before (ok rs) after = (length rs ≡ n) × (after ≡ count_accepted rs + before)
IsCounted n before (err e) after = Unit

abbrev rows : Db → ℕ
rows db = length db.transactions

one_more : Outcome → ℕ
one_more accepted = 1
one_more _ = 0

entry-rows : (x : Outcome) (d d' : Db) → Effect (ok x) d d' → rows d' ≡ one_more x + rows d
unfolding one_more charge
entry-rows accepted d d' (nothing e) = absurd (ground arith)
entry-rows duplicate d d' (nothing e) = omega arith
entry-rows (rejected _) d d' (nothing e) = omega arith
entry-rows x d d' (takes r t e live fits new fresh) = omega arith

count-cons :
    (x : Outcome) (xs : List Outcome) → count_accepted (x ∷ xs) ≡ one_more x + count_accepted xs
unfolding count_accepted one_more
count-cons accepted xs = omega arith
count-cons duplicate xs = omega arith
count-cons (rejected _) xs = omega arith

module _ {C : Type 0} (redis : Redis C) where
  cons-IsCounted :
      (x : Outcome) (n m m' : ℕ) (r : Result (List Outcome)) (w : World C)
      → m' ≡ one_more x + m
      → IsCounted n m' r (rows w.db)
      → let (r', w') = continue r (λ rest. pure (x ∷ rest)) w in IsCounted (suc n) m r' (rows w'.db)
  cons-IsCounted x n m m' (ok rest) w e (l, c) = (ap suc l, omega (arith, c, e, count-cons x rest))
  cons-IsCounted x n m m' (err e') w e h = tt

  entry-IsCounted :
      (o : Result Outcome) (n : ℕ) (db : Db) (w : World C)
      (f : Outcome → Action (World C) (List Outcome))
      → Effect o db w.db
      → ((x : Outcome)
          → rows w.db ≡ one_more x + rows db
          → let (r, w') = f x w in IsCounted (suc n) (rows db) r (rows w'.db))
      → let (r, w') = continue o f w in IsCounted (suc n) (rows db) r (rows w'.db)
  entry-IsCounted (ok x) n db w f h k = k x (entry-rows x db w.db h)
  entry-IsCounted (err e) n db w f h k = tt

  process_all-IsCounted :
      (txs : List TxData) (now : ℕ) (w : World C)
      → let (r, w') = process_all redis txs now w in
        IsCounted (length txs) (rows w.db) r (rows w'.db)
  unfolding process_all count_accepted
  process_all-IsCounted [] now w = (refl, omega arith)
  process_all-IsCounted (tx ∷ txs) now w =
      let (o, w') = process_single_transaction redis tx now w in
      entry-IsCounted o (length txs) w.db w' _
        (process_single_transaction-Does redis tx now w.db w.cache)
        (λ x e.
          cons-IsCounted x (length txs) (rows w.db) (rows w'.db) (process_all redis txs now w').0
            (process_all redis txs now w').1 e (process_all-IsCounted txs now w'))

  -- The end of the call on a counted result.
  finish-counts :
      (rs : Result (List Outcome)) (b n before : ℕ) (w : World C) (reply : BatchReply)
      → IsCounted n before rs (rows w.db)
      → let (r, w') =
          continue {B = BatchReply} rs
            (λ results.
              on_db (modify (logged batch_synced b))
              >> pure (record {
                processed = n;
                accepted_count = count_accepted results;
                rejected_count = count_rejected results;
                results = results;
              }))
            w in
        r ≡ ok reply → (length reply.results ≡ n) × (rows w'.db ≡ reply.accepted_count + before)
  finish-counts (ok results) b n before w reply (l, c) e =
      subst (λ y. (length y.results ≡ n) × (rows w.db ≡ y.accepted_count + before))
        (ok-injective _ reply e) (l, c)
  finish-counts (err e') b n before w reply h e = absurd (ground arith)

  -- A batch that is answered has one outcome for each entry, and the count of accepted ones that it
  -- reports is the number of transactions that the table has gained.
  pub sync_batch-counts :
      (b device_id : ℕ) (txs : List TxData) (now : ℕ) (w : World C) (reply : BatchReply)
      → let (r, w') = sync_batch redis b device_id txs now w in
        r ≡ ok reply
        → (length reply.results ≡ length txs)
          × (length w'.db.transactions ≡ reply.accepted_count + length w.db.transactions)
  unfolding sync_batch
  sync_batch-counts b device_id txs now w reply e = elim (Bool-cases (ltb 100 (length txs))) [
    | inl big ↦ absurd (ground arith)
    | inr fits ↦ elim (Option-cases (find device_key device_id w.db.devices)) [
      | inl unknown ↦ absurd (ground arith)
      | inr (device, known) ↦
          let all = process_all redis txs now w in
          let opened : sync_batch redis b device_id txs now w
              ≡ continue {B = BatchReply} all.0
                  (λ results.
                    on_db (modify (logged batch_synced b))
                    >> pure (record {
                      processed = length txs;
                      accepted_count = count_accepted results;
                      rejected_count = count_rejected results;
                      results = results;
                    }))
                  all.1 =
            rw (fits, known) refl in
          subst
            (λ p.
              p.0 ≡ ok reply
              → (length reply.results ≡ length txs)
                × (rows p.1.db ≡ reply.accepted_count + rows w.db))
            (sym opened)
            (finish-counts all.0 b (length txs) (rows w.db) all.1 reply
              (process_all-IsCounted txs now w))
            e
    ]
  ]
