-- ===== src/Wallet/Tests.antt =====
-- The wallet at a concrete account.
use offimesh.Prelude.{false, pos, negsuc, ◌+ℤ◌, ◌≡◌, refl, some, none, true, List, [], ◌∷◌}
use offimesh.Exceptions.{ok}
use offimesh.Models.{user_active, Db, User, VirtualAccount, active, underpaid}
use offimesh.Wallet.{
  process_funding, get_by_nomba_account_id, one_account, fund_account, fund_user, funding_status,
  credited,
}
use offimesh.Wallet.Funding.{Funding, IsFundable, HasFunded, fund_all, fund_all-HasFunded}

abbrev ada : User
ada = record {
  id = 1;
  name = some 7;
  nin_verified = true;
  bvn_verified = true;
  face_verified = true;
  balance_kobo = pos 500;
  phone_hash = 31;
  phone_salt = 32;
  email = none;
  pin_hash = none;
  role = 1;
  user_status = user_active;
}

abbrev ada_account : VirtualAccount
ada_account = record {
  id = 4;
  user_id = 1;
  nomba_account_id = 90;
  expected_amount_kobo = some (pos 1000);
  received_amount_kobo = none;
  account_status = active;
  is_primary = false;
}

abbrev tables : Db
tables = record {
  books = record { balances = []; entries = [] };
  tokens = [];
  users = ada ∷ [];
  devices = [];
  transactions = [];
  events = [];
  settlements = [];
  signals = [];
  blacklist = [];
  activities = [];
  audits = [];
  webhooks = [];
  accounts = ada_account ∷ [];
  verifications = [];
}

ada-IsFundable : IsFundable 90 ada_account ada tables
ada-IsFundable = record { only = refl; keyed = refl; owned = refl }

part_payment :
    (process_funding 90 (pos 400) 7 tables).0 ≡ ok (credited 1 (pos 400) underpaid (pos 900))
unfolding process_funding get_by_nomba_account_id one_account fund_account fund_user funding_status
    ◌+ℤ◌
part_payment = refl

-- The first transfer is reported twice.
abbrev transfer_7 : Funding
transfer_7 = record { amount_kobo = pos 400; reference = 7 }

abbrev transfers : List Funding
transfers = transfer_7 ∷ transfer_7 ∷ record { amount_kobo = negsuc 9; reference = 8 } ∷ []

fund_all-HasFunded_example :
    HasFunded 90 ada_account ada transfers tables (fund_all 90 transfers tables)
fund_all-HasFunded_example = fund_all-HasFunded 90 ada_account ada transfers tables ada-IsFundable
