-- ===== src/Wallet.antt =====
-- `process_funding` and `get_balance` of app/services/wallet_service.py, the repository
-- app/repositories/virtual_account_repository.py, and the task `process_wallet_funding` of
-- app/workers/webhook_worker.py. The methods are modelled as they are written: the file itself does
-- not parse, for a line of `create_funding_account` that is cut off.
pub mod Funding
pub mod Creation
mod Tests
use offimesh.Prelude.{
  ℕ, ℤ, pos, ◌+ℤ◌, ltb_ℤ, is_zero, Bool, true, false, Option, none, some, List, [], ◌∷◌, ◌==◌,
  if◌then◌else◌, find, replace, filter_by,
}
use offimesh.Exceptions.{
  Action, Result, ok, err, pure, raise, gets, or_raise, modify, ◌>>=◌, ◌>>◌, session, not_found,
  multiple_results_found,
}
use offimesh.Models.{
  Db, audit, wallet_funded, User, user_key, VirtualAccount, account_key, AccountStatus, funded,
  underpaid, overpaid,
}

-- `scalar_one_or_none`: the account id is not unique.
unfoldable pub one_account : List VirtualAccount → Action Db (Option VirtualAccount)
one_account [] = pure none
one_account (a ∷ []) = pure (some a)
one_account (_ ∷ _ ∷ _) = raise multiple_results_found

abbrev pub accounts_of : ℕ → List VirtualAccount → List VirtualAccount
accounts_of nomba_account_id = filter_by (λ a. a.nomba_account_id == nomba_account_id)

unfoldable pub get_by_nomba_account_id : ℕ → Action Db (Option VirtualAccount)
get_by_nomba_account_id nomba_account_id db =
    one_account (accounts_of nomba_account_id db.accounts) db

abbrev pub compare_amounts : ℤ → ℤ → AccountStatus
compare_amounts expected received =
    if ltb_ℤ received expected
    then underpaid
    else if ltb_ℤ expected received
    then overpaid
    else funded

-- An expected amount of 0 counts as none.
unfoldable pub funding_status : Option ℤ → ℤ → AccountStatus
funding_status none received = funded
funding_status (some expected) received =
    if is_zero expected then funded else compare_amounts expected received

abbrev pub funded_account : ℤ → VirtualAccount → VirtualAccount
funded_account received a = record a {
  received_amount_kobo = some received;
  account_status = funding_status a.expected_amount_kobo received;
}

-- `mark_funded` of the account that was found.
abbrev pub mark_funded : VirtualAccount → ℤ → Db → Db
mark_funded a received db = record db {
  accounts = replace account_key (funded_account received a) db.accounts;
}

abbrev pub credited_user : ℤ → User → User
credited_user received u = record u { balance_kobo = u.balance_kobo +ℤ received }

abbrev pub credit_wallet : User → ℤ → Db → Db
credit_wallet u received db = record db {
  users = replace user_key (credited_user received u) db.users;
}

pub data FundingReply : Type 0 where
  account_not_found user_not_found : FundingReply
  credited : ℕ → ℤ → AccountStatus → ℤ → FundingReply

unfoldable pub fund_user : VirtualAccount → Option User → ℤ → Action Db FundingReply
fund_user a none received = pure user_not_found
fund_user a (some u) received = do
  modify (mark_funded a received)
  modify (credit_wallet u received)
  audit wallet_funded u.id
  pure (
      credited u.id received (funding_status a.expected_amount_kobo received)
        (u.balance_kobo +ℤ received))

unfoldable pub fund_account : Option VirtualAccount → ℤ → Action Db FundingReply
fund_account none received = pure account_not_found
fund_account (some a) received =
    gets (λ db. find user_key a.user_id db.users) >>= λ user. fund_user a user received

-- The reference of the transfer goes only into the log and the audit text, which are not in the model.
unfoldable pub process_funding : ℕ → ℤ → ℕ → Action Db FundingReply
process_funding nomba_account_id received transaction_reference =
    get_by_nomba_account_id nomba_account_id >>= λ account. fund_account account received

unfoldable pub process_wallet_funding : ℕ → ℤ → ℕ → Action Db FundingReply
process_wallet_funding nomba_account_id amount_kobo reference =
    session (process_funding nomba_account_id amount_kobo reference)

pub record WalletBalance : Type 0 where
  pub balance_kobo : ℤ
  pub available_kobo : ℤ
  pub pending_kobo : ℤ

unfoldable pub get_balance : ℕ → Action Db WalletBalance
get_balance user_id = do
  found ← gets (λ db. find user_key user_id db.users)
  user ← or_raise found not_found
  pure (record {
    balance_kobo = user.balance_kobo;
    available_kobo = user.balance_kobo;
    pending_kobo = pos 0;
  })
