-- ===== src/Nomba/Resource/Ready.antt =====
-- A request that gets its answer within the retries.
use offimesh.Prelude.{ℕ, suc, ◌+◌, ◌≡◌, ◌≢◌, refl, true, some}
use offimesh.Exceptions.{Result, ok}
use offimesh.Nomba.{RetryConfig, Response}
use offimesh.Nomba.Recovery.{Answers, IsFresh, request-IsFresh}
use offimesh.Nomba.Access.{TokenCache, Site, authorised_request}
use offimesh.Nomba.Access.Reuse.{cached}
use offimesh.Nomba.Json.{Json, unwrap}
use offimesh.Nomba.Resource.{Network, read_json, parse_response}

module _ {C : Type 0} (redis : TokenCache C) (config : RetryConfig) where
  -- The client has a token that Redis keeps, and a breaker that no failure has touched.
  pub record IsReady (s : Site C) : Type 0 where
    pub token : ℕ
    pub kept : redis.get s.cache ≡ some token
    pub real : token ≢ 0
    pub fresh : IsFresh config s.client

  -- The call returned `a` after `n` requests to the bank and none for a token.
  pub record Served {A : Type 0} (a : A) (n : ℕ) (s : Site C) (run : Result A × Site C)
      : Type 0 where
    pub returns : run.0 ≡ ok a
    pub counts : run.1.client.sent ≡ s.client.sent + n
    pub quiet : run.1.fetches ≡ s.fetches
    pub ready : IsReady run.1

  module _ (json : Response → Result Json) {Q : Type 0} (network : Network Q) (q : Q) (r : Response)
      (payload : Json) (s : Site C) (answers : Answers config (network.exchanges q) r)
      (body : json r ≡ ok payload) (ready : IsReady s) where
    pub read_json-Served :
        Served payload (suc answers.failed) s (read_json redis config json true network q s)
    unfolding read_json authorised_request
    read_json-Served =
        let (result, sent, fresh) =
          request-IsFresh config (network.exchanges q) r s.client answers ready.fresh in
        rw (cached redis config network.endpoint ready.token s ready.kept ready.real) (
          rw result (
            rw body (record {
              returns = refl;
              counts = sent;
              quiet = refl;
              ready = record {
                token = ready.token;
                kept = ready.kept;
                real = ready.real;
                fresh = fresh;
              };
            })))

    pub parse_response-Served :
        {A : Type 0} (validate : Json → Result A) (a : A)
        → validate (unwrap payload) ≡ ok a
        → Served a
            (suc answers.failed)
            s
            (parse_response redis config json validate true network q s)
    unfolding parse_response
    parse_response-Served validate a valid =
        let read = read_json-Served in
        rw read.returns (
          rw valid (record {
            returns = refl;
            counts = read.counts;
            quiet = read.quiet;
            ready = read.ready;
          }))
