-- ===== src/Nomba/Listing.antt =====
-- app/integrations/nomba/transactions.py: what the bank has on record. The reading of a body as JSON
-- and the validation of an entry as a `NombaTransactionResponse` are arguments.
pub mod Pages
mod Tests
use offimesh.Prelude.{
  ℕ, zero, suc, ◌++◌, ltb, Bool, true, false, Option, none, some, List, [], ◌∷◌, if◌then◌else◌,
  is_some,
}
use offimesh.Exceptions.{
  Action, Result, ok, err, pure, raise, returned, ◌>>=◌, ◌>>◌, nomba, nomba_not_found,
}
use offimesh.Reconciliation.{NombaTransaction}
use offimesh.Nomba.{RetryConfig, Response}
use offimesh.Nomba.Access.{TokenCache, Site}
use offimesh.Nomba.Resource.{Network, found_or_none, read_json, parse_response}
use offimesh.Nomba.Json.{Json, unwrap, results_of, cursor_of, validate_each}

-- The filters that stand in the body, those that are given.
pub record Filters : Type 0 where
  pub transaction_ref : Option ℕ
  pub status : Option ℕ
  pub source : Option ℕ
  pub transaction_type : Option ℕ
  pub terminal_id : Option ℕ
  pub rrn : Option ℕ
  pub merchant_tx_ref : Option ℕ

abbrev pub no_filters : Filters
no_filters = record {
  transaction_ref = none;
  status = none;
  source = none;
  transaction_type = none;
  terminal_id = none;
  rrn = none;
  merchant_tx_ref = none;
}

-- The parameters and the body of the request. Dates are days; the cursor is as the bank sent it.
pub record Query : Type 0 where
  pub limit : ℕ
  pub cursor : Option Json
  pub date_from : Option ℕ
  pub date_to : Option ℕ
  pub filters : Filters

abbrev pub Page : Type 0
Page = List NombaTransaction × Option Json

unfoldable pub query_of : ℕ → Option Json → Option ℕ → Option ℕ → Filters → Query
query_of limit cursor date_from date_to filters = record {
  limit = if ltb 100 limit then 100 else limit;
  cursor = cursor;
  date_from = date_from;
  date_to = date_to;
  filters = filters;
}

unfoldable pub page_of : (Json → Result NombaTransaction) → Json → Result Page
page_of validate payload =
    let wrapper = unwrap payload in
    elim (validate_each validate (results_of wrapper)) [
      | err e ↦ err e
      | ok transactions ↦ ok (transactions, cursor_of wrapper)
    ]

abbrev pub first_of : Page → Option NombaTransaction
first_of ([], cursor) = none
first_of (tx ∷ txs, cursor) = some tx

module _ {C : Type 0} (redis : TokenCache C) (config : RetryConfig) (json : Response → Result Json)
    (validate : Json → Result NombaTransaction) where
  unfoldable pub list_transactions :
      ℕ → Option Json → Option ℕ → Option ℕ → Filters → Network Query → Action (Site C) Page
  list_transactions limit cursor date_from date_to filters network = do
    payload ←
        read_json redis config json true network (query_of limit cursor date_from date_to filters)
    returned (page_of validate payload)

  unfoldable pub get_transaction_by_reference :
      ℕ → Network Query → Action (Site C) (Option NombaTransaction)
  get_transaction_by_reference reference network = do
    page ←
        list_transactions 1 none none none (record no_filters { merchant_tx_ref = some reference })
          network
    pure (first_of page)

  unfoldable pub get_transaction : Network ℕ → ℕ → Action (Site C) (Option NombaTransaction)
  get_transaction network transaction_id s =
      let (r, s') = parse_response redis config json validate true network transaction_id s in
      (found_or_none r, s')

  -- The `while True` loop by the rounds left, none if it still runs after them: `round` counts the
  -- requests so far, each of which meets a network of its own.
  unfoldable pub list_from :
      ℕ
      → ℕ
      → ℕ
      → (ℕ → Network Query)
      → ℕ
      → Option Json
      → List NombaTransaction
      → Action (Site C) (Option (List NombaTransaction))
  list_from zero date_from date_to network round cursor all_transactions = pure none
  list_from (suc rounds) date_from date_to network round cursor all_transactions =
      list_transactions 100 cursor (some date_from) (some date_to) no_filters (network round)
      >>= λ page. elim page.1 [
        | none ↦ pure (some (all_transactions ++ page.0))
        | some next ↦
            list_from rounds date_from date_to network (suc round) (some next)
              (all_transactions ++ page.0)
      ]

  unfoldable pub list_all_transactions_for_period :
      ℕ → ℕ → ℕ → (ℕ → Network Query) → Action (Site C) (Option (List NombaTransaction))
  list_all_transactions_for_period rounds date_from date_to network =
      list_from rounds date_from date_to network 0 none []
