-- ===== src/Wallet/Creation/Orphans.antt =====
-- Accounts that exist at the bank alone.
use offimesh.Prelude.{
  ℕ, suc, ◌+◌, ◌≤◌, ◌≡◌, refl, ap, ◌∙◌, true, none, some, List, [], ◌∷◌, length, leb, ◌&&◌, find,
  arith,
}
use offimesh.Exceptions.{Result, ok, err, attribute_error}
use offimesh.Models.{User, user_key, VirtualAccount}
use offimesh.Nomba.{RetryConfig, Response}
use offimesh.Nomba.Recovery.{Answers}
use offimesh.Nomba.Access.{TokenCache, Site}
use offimesh.Nomba.Json.{Json, unwrap}
use offimesh.Nomba.Resource.{Network}
use offimesh.Nomba.Resource.Ready.{IsReady, Served, parse_response-Served}
use offimesh.Nomba.Accounts.{
  AccountResponse, AccountBody, create_virtual_account, validate_account_ref, validate_account_name,
}
use offimesh.Wallet.Creation.{
  Wallets, get_primary_by_user, account_row, create_user_virtual_account,
}

abbrev pub IsWithin : ℕ → ℕ → ℕ → Type 0
IsWithin low high n = (low ≤ n) × (n ≤ high)

abbrev pub all_raise : List (Network AccountBody) → List (Result VirtualAccount)
all_raise [] = []
all_raise (network ∷ networks) = err attribute_error ∷ all_raise networks

module _ (account_ref : ℕ → ℕ) (user_id account_name : ℕ) where
  abbrev pub body : AccountBody
  body = record {
    account_ref = account_ref user_id;
    account_name = account_name;
    expected_hundredths = none;
  }

module _ (config : RetryConfig) (json : Response → Result Json)
    (validate : Json → Result AccountResponse) (account_ref : ℕ → ℕ)
    (user_id account_name : ℕ) where
  -- The bank creates an account for the request, and says so within the retries.
  pub record IsCreated (network : Network AccountBody) : Type 0 where
    pub response : Response
    pub payload : Json
    pub account : AccountResponse
    pub answers :
        Answers config (network.exchanges (body account_ref user_id account_name)) response
    pub readable : json response ≡ ok payload
    pub valid : validate (unwrap payload) ≡ ok account

  abbrev pub AllCreated : List (Network AccountBody) → Type 0
  AllCreated [] = Unit
  AllCreated (network ∷ networks) = IsCreated network × AllCreated networks

module _ {C : Type 0} (redis : TokenCache C) (config : RetryConfig) (json : Response → Result Json)
    (validate : Json → Result AccountResponse) (len : ℕ → ℕ) (account_ref : ℕ → ℕ)
    (user_id account_name : ℕ) where
  -- Requests for the account, one after the other.
  unfoldable pub create_all :
      List (Network AccountBody) → Wallets C → List (Result VirtualAccount) × Wallets C
  create_all [] w = ([], w)
  create_all (network ∷ networks) w =
      let (r, w') =
        create_user_virtual_account redis config json validate len account_ref user_id account_name
          network w in
      let (rs, w'') = create_all networks w' in (r ∷ rs, w'')

  module _ (fits_ref : IsWithin 16 64 (len (account_ref user_id)))
      (fits_name : IsWithin 8 64 (len account_name)) where
    create-Served :
        (network : Network AccountBody) (s : Site C)
        → (made : IsCreated config json validate account_ref user_id account_name network)
        → IsReady redis config s
        → Served redis config made.account (suc made.answers.failed) s (
            create_virtual_account redis config json validate len
              (account_ref user_id)
              account_name
              none
              network
              s)
    unfolding create_virtual_account validate_account_ref validate_account_name
    create-Served network s made ready =
        let long : leb 16 (len (account_ref user_id)) && leb (len (account_ref user_id)) 64 ≡ true =
          ground (arith, fits_ref) in
        let named : leb 8 (len account_name) && leb (len account_name) 64 ≡ true =
          ground (arith, fits_name) in
        rw long (
          rw named (
            parse_response-Served redis config json network (body account_ref user_id account_name)
              made.response made.payload s made.answers made.readable ready validate made.account
              made.valid))

    record Raised (w : Wallets C) (run : Result VirtualAccount × Wallets C) : Type 0 where
      raises : run.0 ≡ err attribute_error
      same : run.1.db ≡ w.db
      asked : suc w.site.client.sent ≤ run.1.site.client.sent
      ready : IsReady redis config run.1.site

    create_user-Raised :
        (network : Network AccountBody) (u : User) (w : Wallets C)
        → find user_key user_id w.db.users ≡ some u
        → get_primary_by_user user_id w.db ≡ (ok none, w.db)
        → IsCreated config json validate account_ref user_id account_name network
        → IsReady redis config w.site
        → Raised w (
            create_user_virtual_account redis config json validate len account_ref user_id
              account_name network w)
    unfolding create_user_virtual_account account_row
    create_user-Raised network u w e p made ready =
        let run = create-Served network w.site made ready in
        rw e (
          rw p (
            rw run.returns (record {
              raises = refl;
              same = refl;
              asked = omega (arith, run.counts);
              ready = run.ready;
            })))

    -- A user without a primary account never gets one, with a reference and a name of lengths that
    -- the client admits, a token that Redis keeps and a breaker that no failure has touched: each
    -- request for it lets the bank create an account, if the bank answers within the retries, and
    -- raises `AttributeError` for a field that the answer does not have; the tables stay as they
    -- are, so that the next request does the same.
    pub create_all-raises :
        (networks : List (Network AccountBody)) (u : User) (w : Wallets C)
        → find user_key user_id w.db.users ≡ some u
        → get_primary_by_user user_id w.db ≡ (ok none, w.db)
        → AllCreated config json validate account_ref user_id account_name networks
        → IsReady redis config w.site
        → let (results, w') = create_all networks w in
          (results ≡ all_raise networks)
          × (w'.db ≡ w.db)
          × (w.site.client.sent + length networks ≤ w'.site.client.sent)
    unfolding create_all
    create_all-raises [] u w e p made ready = (refl, refl, omega arith)
    create_all-raises (network ∷ networks) u w e p made ready =
        let now = create_user-Raised network u w e p made.0 ready in
        let same = now.same in
        let w' =
          (create_user_virtual_account redis config json validate len account_ref user_id
            account_name network w).1 in
        let later = create_all-raises networks u w' (rw same e) (rw same p) made.1 now.ready in
        (
          rw now.raises (ap (λ rs. err attribute_error ∷ rs) later.0),
          later.1 ∙ same,
          omega (arith, later.2, now.asked),
        )
