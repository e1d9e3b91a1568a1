-- ===== src/Settlements/Sweeps.antt =====
-- What the sweep over failed settlements can do.
use offimesh.Prelude.{
  ℕ, suc, ◌≡◌, refl, ap, Bool, true, false, none, some, List, [], ◌∷◌, find, All, inl, inr, arith,
  Option-cases,
}
use offimesh.Exceptions.{ok, err, Error, not_found, settlement_already_processed, settlement_error}
use offimesh.Models.{
  Db, Transaction, TxStatus, verified, settling, settled, settlement_failed, other_tx_status,
  tx_key,
}
use offimesh.Settlements.{Bank, process_settlement}
use offimesh.Settlements.Worker.{
  Attempt, is_aborted, settle_each, tx_ids, get_pending_retry, retry_failed_settlements,
}

abbrev pub is_open : TxStatus → Bool
is_open verified = true
is_open settling = false
is_open settled = false
is_open settlement_failed = false
is_open (other_tx_status _) = false

abbrev pub has_open : ℕ → Db → Bool
has_open i db = elim (find tx_key i db.transactions) [
  | none ↦ false
  | some tx ↦ is_open tx.tx_status
]

-- A call that raises before it writes, in a session that goes on.
pub record IsRefused (i : ℕ) (a : Attempt) (b : Bank) : Type 0 where
  pub error : Error
  pub goes_on : is_aborted error ≡ false
  pub run : process_settlement i a.lock_acquired a.id a.answer a.now b ≡ (err error, b)

closed_tx :
    (i : ℕ) (a : Attempt) (b : Bank) (tx : Transaction) (t : TxStatus)
    → find tx_key i b.db.transactions ≡ some tx
    → tx.tx_status ≡ t
    → is_open t ≡ false
    → IsRefused i a b
unfolding process_settlement
closed_tx i a b tx verified e f h = absurd (ground arith)
closed_tx i a b tx settling e f h = record {
  error = settlement_error;
  goes_on = refl;
  run = rw e (rw f refl);
}
closed_tx i a b tx settled e f h = record {
  error = settlement_already_processed;
  goes_on = refl;
  run = rw e (rw f refl);
}
closed_tx i a b tx settlement_failed e f h = record {
  error = settlement_error;
  goes_on = refl;
  run = rw e (rw f refl);
}
closed_tx i a b tx (other_tx_status _) e f h = record {
  error = settlement_error;
  goes_on = refl;
  run = rw e (rw f refl);
}

unknown_tx :
    (i : ℕ) (a : Attempt) (b : Bank) → find tx_key i b.db.transactions ≡ none → IsRefused i a b
unfolding process_settlement
unknown_tx i a b e = record { error = not_found; goes_on = refl; run = rw e refl }

pub refused : (i : ℕ) (a : Attempt) (b : Bank) → has_open i b.db ≡ false → IsRefused i a b
refused i a b h = elim (Option-cases (find tx_key i b.db.transactions)) [
  | inl missing ↦ unknown_tx i a b missing
  | inr (tx, e) ↦ closed_tx i a b tx tx.tx_status e refl (ground arith)
]

settle_each-refused :
    (attempts : ℕ → Attempt) (start : Db) (is : List ℕ) (k count : ℕ) (b : Bank)
    → All (λ i. has_open i b.db ≡ false) is
    → settle_each attempts start is k count b ≡ (count, b)
unfolding settle_each
settle_each-refused attempts start [] k count b h = refl
settle_each-refused attempts start (i ∷ is) k count b h =
    let r = refused i (attempts k) b h.0 in
    rw r.run (rw r.goes_on (settle_each-refused attempts start is (suc k) count b h.1))

-- If no failed settlement that the sweep fetches has a verified transaction, then it settles none,
-- asks for no transfer and changes nothing, whatever the lock and the client would answer.
retry_failed_settlements_stuck :
    (attempts : ℕ → Attempt) (b : Bank)
    → All (λ i. has_open i b.db ≡ false) (tx_ids (get_pending_retry 3 50 b.db))
    → retry_failed_settlements attempts b ≡ (ok 0, b)
unfolding retry_failed_settlements
retry_failed_settlements_stuck attempts b h =
    ap (λ (r : ℕ × Bank). (ok r.0, r.1))
      (settle_each-refused attempts b.db (tx_ids (get_pending_retry 3 50 b.db)) 0 0 b h)
