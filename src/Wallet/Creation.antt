-- ===== src/Wallet/Creation.antt =====
-- `create_user_virtual_account` of app/services/wallet_service.py, over the client of
-- app/integrations/nomba/virtual_accounts.py. The text of the reference and the lengths of texts are
-- arguments.
pub mod Orphans
mod Tests
use offimesh.Prelude.{ℕ, Bool, ◌&&◌, Option, none, some, ◌==◌, find, filter_by}
use offimesh.Exceptions.{
  Action, Result, ok, err, pure, raise, returned, gets, or_raise, ◌>>=◌, ◌>>◌, not_found,
  attribute_error,
}
use offimesh.Models.{Db, user_key, VirtualAccount}
use offimesh.Nomba.{RetryConfig, Response}
use offimesh.Nomba.Access.{TokenCache, Site}
use offimesh.Nomba.Json.{Json}
use offimesh.Nomba.Resource.{Network}
use offimesh.Nomba.Accounts.{AccountResponse, AccountBody, create_virtual_account}
use offimesh.Wallet.{one_account}

-- The session of the service and the client of the bank.
pub record Wallets (C : Type 0) : Type 0 where
  pub db : Db
  pub site : Site C

abbrev pub on_db : {C A : Type 0} → Action Db A → Action (Wallets C) A
on_db m w = let (r, db) = m w.db in (r, record w { db = db })

abbrev pub on_site : {C A : Type 0} → Action (Site C) A → Action (Wallets C) A
on_site m w = let (r, site) = m w.site in (r, record w { site = site })

abbrev is_primary_of : ℕ → VirtualAccount → Bool
is_primary_of user_id a = a.user_id == user_id && a.is_primary

unfoldable pub get_primary_by_user : ℕ → Action Db (Option VirtualAccount)
get_primary_by_user user_id db = one_account (filter_by (is_primary_of user_id) db.accounts) db

-- The row is made from `nomba_account.account_id`, which the response does not have: what follows,
-- the storing of the row, is not reached.
unfoldable pub account_row : AccountResponse → Result VirtualAccount
account_row nomba_account = err attribute_error

module _ {C : Type 0} (redis : TokenCache C) (config : RetryConfig) (json : Response → Result Json)
    (validate : Json → Result AccountResponse) (len : ℕ → ℕ) (account_ref : ℕ → ℕ) where
  unfoldable pub create_user_virtual_account :
      ℕ → ℕ → Network AccountBody → Action (Wallets C) VirtualAccount
  create_user_virtual_account user_id account_name network = do
    user ← on_db (gets (λ db. find user_key user_id db.users))
    or_raise user not_found
    existing ← on_db (get_primary_by_user user_id)
    elim existing [
      | some account ↦ pure account
      | none ↦
          (on_site (
              create_virtual_account redis config json validate len (account_ref user_id)
                account_name none network)
            >>= λ nomba_account. returned (account_row nomba_account))
    ]
