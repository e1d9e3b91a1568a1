-- ===== src/Nomba/Listing/Pages.antt =====
-- The whole of a period, over the pages that the bank serves.
use offimesh.Prelude.{
  ℕ, zero, suc, ◌+◌, ◌++◌, ◌≡◌, ◌≤◌, refl, ap, ◌∙◌, Option, none, some, List, [], arith,
}
use mathlib.Core.List.{append_assoc}
use offimesh.Exceptions.{Result, ok}
use offimesh.Reconciliation.{NombaTransaction}
use offimesh.Nomba.{RetryConfig, Exchange, Response}
use offimesh.Nomba.Recovery.{Answers}
use offimesh.Nomba.Access.{TokenCache, Site}
use offimesh.Nomba.Json.{Json}
use offimesh.Nomba.Resource.{Network}
use offimesh.Nomba.Resource.Ready.{IsReady, Served, read_json-Served}
use offimesh.Nomba.Listing.{
  Query, Page, no_filters, query_of, page_of, list_transactions, list_from,
  list_all_transactions_for_period,
}

module _ (date_from date_to : ℕ) (network : ℕ → Network Query) where
  abbrev pub attempts : ℕ → Option Json → ℕ → Exchange
  attempts round cursor =
      (network round).exchanges (query_of 100 cursor (some date_from) (some date_to) no_filters)

module _ (config : RetryConfig) (json : Response → Result Json)
    (validate : Json → Result NombaTransaction) (date_from date_to : ℕ)
    (network : ℕ → Network Query) where
  -- What the bank serves from a cursor on, the request for which is the `round`-th: the entries,
  -- on so many pages, after so many requests, those included that fail and are repeated.
  pub data Pages : ℕ → Option Json → List NombaTransaction → ℕ → ℕ → Type 0 where
    last :
        {round : ℕ}
        → {cursor : Option Json} → {r : Response} → {payload : Json} → {txs : List NombaTransaction}
        → (a : Answers config (attempts date_from date_to network round cursor) r)
        → json r ≡ ok payload
        → page_of validate payload ≡ ok (txs, none)
        → Pages round cursor txs 1 (suc a.failed)
    more :
        {round : ℕ}
        → {cursor : Option Json} → {r : Response} → {payload next : Json}
        → {txs rest : List NombaTransaction} → {pages requests : ℕ}
        → (a : Answers config (attempts date_from date_to network round cursor) r)
        → json r ≡ ok payload
        → page_of validate payload ≡ ok (txs, some next)
        → Pages (suc round) (some next) rest pages requests
        → Pages round cursor (txs ++ rest) (suc pages) (suc a.failed + requests)

  -- A page with a cursor to another one, for every request.
  record Continued (round : ℕ) (cursor : Option Json) : Type 0 where
    pub response : Response
    pub payload : Json
    pub txs : List NombaTransaction
    pub next : Json
    pub answers : Answers config (attempts date_from date_to network round cursor) response
    pub body : json response ≡ ok payload
    pub page : page_of validate payload ≡ ok (txs, some next)

module _ {C : Type 0} (redis : TokenCache C) (config : RetryConfig) (json : Response → Result Json)
    (validate : Json → Result NombaTransaction) (date_from date_to : ℕ)
    (network : ℕ → Network Query) where
  list_transactions-Served :
      (round : ℕ) (cursor : Option Json) (r : Response) (payload : Json) (page : Page) (s : Site C)
      → (a : Answers config (attempts date_from date_to network round cursor) r)
      → json r ≡ ok payload
      → page_of validate payload ≡ ok page
      → IsReady redis config s
      → Served redis config page (suc a.failed) s (
          list_transactions redis config json validate 100 cursor
            (some date_from)
            (some date_to)
            no_filters
            (network round)
            s)
  unfolding list_transactions
  list_transactions-Served round cursor r payload page s a e p ready =
      let read = read_json-Served redis config json (network round) _ r payload s a e ready in
      rw read.returns (
        rw p
          (record { returns = refl; counts = read.counts; quiet = read.quiet; ready = read.ready }))

  -- The loop from some round on.
  record Listed (requests : ℕ) (txs : List NombaTransaction) (s : Site C)
      (run : Result (Option (List NombaTransaction)) × Site C) : Type 0 where
    returns : run.0 ≡ ok (some txs)
    counts : run.1.client.sent ≡ s.client.sent + requests
    quiet : run.1.fetches ≡ s.fetches

  list_from-Pages :
      (rounds : ℕ) (seen : List NombaTransaction) (s : Site C)
      → {round : ℕ} → {cursor : Option Json} → {txs : List NombaTransaction} → {pages requests : ℕ}
      → Pages config json validate date_from date_to network round cursor txs pages requests
      → pages ≤ rounds
      → IsReady redis config s
      → Listed requests (seen ++ txs) s (
          list_from redis config json validate rounds date_from date_to network round cursor seen s)
  unfolding list_from
  list_from-Pages zero seen s (last a e p) enough ready = absurd (omega (arith, enough))
  list_from-Pages zero seen s (more a e p others) enough ready = absurd (omega (arith, enough))
  list_from-Pages (suc rounds) seen s (last {round} {cursor} {r} {payload} {txs} a e p) enough
        ready =
      let page = list_transactions-Served round cursor r payload (txs, none) s a e p ready in
      rw page.returns (record { returns = refl; counts = page.counts; quiet = page.quiet })
  list_from-Pages (suc rounds) seen s
        (more {round} {cursor} {r} {payload} {next} {txs} {rest} {pages} {requests} a e p others)
        enough ready =
      let page = list_transactions-Served round cursor r payload (txs, some next) s a e p ready in
      let later =
        list_from-Pages rounds (seen ++ txs) _ others (omega (arith, enough)) page.ready in
      rw page.returns (record {
        returns = later.returns ∙ ap (λ all. ok (some all)) (append_assoc seen txs rest);
        counts = omega (arith, later.counts, page.counts);
        quiet = later.quiet ∙ page.quiet;
      })

  -- The listing of a period is complete: if the bank serves its entries on so many pages, over
  -- requests that may fail and be repeated within the retries, Redis keeps a token and no failure
  -- has touched the breaker, then the loop ends within that many rounds and returns all the
  -- entries, in their order, after just those requests to the bank and none for a token.
  pub list_all-Pages :
      (txs : List NombaTransaction) (pages requests rounds : ℕ) (s : Site C)
      → Pages config json validate date_from date_to network 0 none txs pages requests
      → pages ≤ rounds
      → IsReady redis config s
      → let (result, s') =
          list_all_transactions_for_period redis config json validate rounds date_from date_to
            network s in
        (result ≡ ok (some txs))
        × (s'.client.sent ≡ s.client.sent + requests)
        × (s'.fetches ≡ s.fetches)
  unfolding list_all_transactions_for_period
  list_all-Pages txs pages requests rounds s p enough ready =
      let run = list_from-Pages rounds [] s p enough ready in (run.returns, run.counts, run.quiet)

  list_from_endless :
      (rounds round : ℕ) (cursor : Option Json) (seen : List NombaTransaction) (s : Site C)
      → ((n : ℕ) → (c : Option Json) → Continued config json validate date_from date_to network n c)
      → IsReady redis config s
      → let (result, s') =
          list_from redis config json validate rounds date_from date_to network round cursor seen
            s in
        (result ≡ ok none) × (s.client.sent + rounds ≤ s'.client.sent)
  unfolding list_from
  list_from_endless zero round cursor seen s h ready = (refl, omega arith)
  list_from_endless (suc rounds) round cursor seen s h ready =
      let k = h round cursor in
      let page =
        list_transactions-Served round cursor k.response k.payload (k.txs, some k.next) s k.answers
          k.body k.page ready in
      let later =
        list_from_endless rounds (suc round) (some k.next) (seen ++ k.txs) _ h page.ready in
      rw page.returns (later.0, omega (arith, later.1, page.counts))

  -- Nothing else ends the loop: against a bank that hands out a cursor with every page, if only the
  -- same one again and again, it still runs after any number of rounds, and has sent as many
  -- requests at least.
  list_all_endless :
      (rounds : ℕ) (s : Site C)
      → ((n : ℕ) → (c : Option Json) → Continued config json validate date_from date_to network n c)
      → IsReady redis config s
      → let (result, s') =
          list_all_transactions_for_period redis config json validate rounds date_from date_to
            network s in
        (result ≡ ok none) × (s.client.sent + rounds ≤ s'.client.sent)
  unfolding list_all_transactions_for_period
  list_all_endless rounds s h ready = list_from_endless rounds 0 none [] s h ready
