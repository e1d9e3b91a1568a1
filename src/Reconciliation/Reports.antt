-- ===== src/Reconciliation/Reports.antt =====
-- What the nightly report can tell.
use offimesh.Prelude.{
  ◌≡◌, refl, ap, not, List, [], ◌∷◌, filter_by, map, length, arith, inl, inr, Bool-cases,
}
use offimesh.Exceptions.{ok, err, attribute_error}
use offimesh.Models.{Db, Transaction}
use offimesh.Reconciliation.{
  NombaTransaction, build_lookup, list_all, missing_in_local, missing_in_nomba, amount_mismatches,
  is_pending, unmatched, is_empty, diff, run_reconciliation,
}

abbrev pub finished : List Transaction → List Transaction
finished txs = filter_by (λ tx. not (is_pending tx.tx_status)) txs

nothing_matched : (txs : List Transaction) → missing_in_nomba [] txs ≡ map unmatched (finished txs)
unfolding missing_in_nomba
nothing_matched [] = refl
nothing_matched (tx ∷ txs) = elim (Bool-cases (is_pending tx.tx_status)) [
  | inl waiting ↦ rw waiting (nothing_matched txs)
  | inr shut ↦ rw shut (ap (λ rest. unmatched tx ∷ rest) (nothing_matched txs))
]

nothing_compared : (txs : List Transaction) → amount_mismatches [] txs ≡ []
unfolding amount_mismatches
nothing_compared [] = refl
nothing_compared (tx ∷ txs) = nothing_compared txs

is_empty-map : (txs : List Transaction) → is_empty (map unmatched txs) ≡ is_empty txs
is_empty-map [] = refl
is_empty-map (tx ∷ txs) = refl

-- The nightly reconciliation compares nothing: if the bank lists any transaction, the task raises
-- `AttributeError`; if it lists none, then whatever the local table holds the report has no other
-- finding than each of the newest 1000 local transactions that is neither verified nor settling, and
-- it flags a discrepancy exactly if there is one.
pub run_reconciliation_blind :
    (n : NombaTransaction) (ns : List NombaTransaction) (db : Db)
    → (run_reconciliation (ok (n ∷ ns)) db ≡ (err attribute_error, db))
      × (run_reconciliation (ok []) db ≡ (
        ok (record {
          nomba_transactions = 0;
          local_transactions = length (list_all db);
          only_nomba = [];
          only_local = map unmatched (finished (list_all db));
          amounts = [];
          has_discrepancies = not (is_empty (finished (list_all db)));
        }),
        db,
      ))
unfolding run_reconciliation build_lookup diff missing_in_local
run_reconciliation_blind n ns db = (
  refl,
  rw (nothing_matched (list_all db), nothing_compared (list_all db))
      (rw (is_empty-map (finished (list_all db))) (ground arith)),
)
