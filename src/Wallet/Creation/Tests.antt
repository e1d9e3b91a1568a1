-- ===== src/Wallet/Creation/Tests.antt =====
-- A user without an account, for whom the bank creates two.
use offimesh.Prelude.{ℕ, ◌+◌, ◌≤◌, ◌≡◌, refl, pos, true, false, Option, none, some, [], ◌∷◌, arith}
use offimesh.Exceptions.{Result, ok, err, value_error, attribute_error}
use offimesh.Models.{Db, User, user_active}
use offimesh.Nomba.{default_retries, Response, responded}
use offimesh.Nomba.Breaker.{new_breaker}
use offimesh.Nomba.Access.{TokenCache, Site, unreadable}
use offimesh.Nomba.Json.{Json, text, unwrap}
use offimesh.Nomba.Resource.{Network}
use offimesh.Nomba.Resource.Ready.{IsReady}
use offimesh.Nomba.Accounts.{AccountResponse, AccountBody}
use offimesh.Wallet.{one_account}
use offimesh.Wallet.Creation.{Wallets, get_primary_by_user}
use offimesh.Wallet.Creation.Orphans.{IsCreated, create_all, create_all-raises}

abbrev ada : User
ada = record {
  id = 1;
  name = some 7;
  nin_verified = true;
  bvn_verified = true;
  face_verified = true;
  balance_kobo = pos 500;
  phone_hash = 31;
  phone_salt = 32;
  email = none;
  pin_hash = none;
  role = 1;
  user_status = user_active;
}

abbrev tables : Db
tables = record {
  books = record { balances = []; entries = [] };
  tokens = [];
  users = ada ∷ [];
  devices = [];
  transactions = [];
  events = [];
  settlements = [];
  signals = [];
  blacklist = [];
  activities = [];
  audits = [];
  webhooks = [];
  accounts = [];
  verifications = [];
}

abbrev cell : TokenCache (Option ℕ)
cell = record {
  get = λ c. c;
  setex = λ _ token _. some token;
  set = λ token _. some token;
  delete = λ _. none;
}

abbrev site : Site (Option ℕ)
site = record {
  client = record { breaker = new_breaker; sent = 0; slept = 0 };
  cache = some 9;
  fetches = 1;
  bearers = [];
}

site-IsReady : IsReady cell default_retries site
site-IsReady = record {
  token = 9;
  kept = refl;
  real = omega arith;
  fresh = record { closes = refl; empty = refl; patient = omega arith };
}

abbrev wallets : Wallets (Option ℕ)
wallets = record { db = tables; site = site }

abbrev reply : Response
reply = record { status_code = 200; retry_after = none; message = 0 }

abbrev network : Network AccountBody
network = record {
  endpoint = unreadable;
  exchanges =
      λ _ _. record { asked_at = 10; answered_at = 20; answer = responded reply; jitter = 1000 };
}

abbrev account : AccountResponse
account = record {
  account_holder_id = 51;
  account_ref = 52;
  account_name = 53;
  account_number = 54;
  bank_name = 55;
  expired = false;
}

abbrev json : Response → Result Json
json _ = ok (text 54)

abbrev validate : Json → Result AccountResponse
validate (text n) = ok (record account { account_number = n })
validate _ = err value_error

made : IsCreated default_retries json validate (λ u. u) 1 53 network
unfolding unwrap
made = record {
  response = reply;
  payload = text 54;
  account = account;
  answers = record {
    failed = 0;
    few = omega arith;
    passing = λ i h. absurd (omega (arith, h));
    answered = refl;
    succeeds = refl;
  };
  readable = refl;
  valid = refl;
}

no_primary : get_primary_by_user 1 tables ≡ (ok none, tables)
unfolding get_primary_by_user one_account
no_primary = refl

create_all-raises_example :
    let (results, w') =
      create_all cell default_retries json validate
        (λ _. 45)
        (λ u. u)
        1
        53
        (network ∷ network ∷ [])
        wallets in
    (results ≡ err attribute_error ∷ err attribute_error ∷ [])
    × (w'.db ≡ tables)
    × (0 + 2 ≤ w'.site.client.sent)
create_all-raises_example =
    create_all-raises cell default_retries json validate (λ _. 45) (λ u. u) 1 53
      (omega arith, omega arith) (omega arith, omega arith) (network ∷ network ∷ []) ada wallets
      refl no_primary (made, (made, tt)) site-IsReady
