-- ===== src/Tokens/Tests.antt =====
-- Two tokens of one user, and the theorems about them.
use offimesh.Prelude.{
  ℕ, ℤ, pos, ◌+ℤ◌, ◌-ℤ◌, ◌≤ℤ◌, ◌≡◌, refl, false, List, [], ◌∷◌, arith, some, All,
}
use offimesh.Exceptions.{ok}
use offimesh.Ledger.{Books}
use offimesh.Ledger.Rows.{available}
use offimesh.Models.{Db, OfflineToken, unused, active, spend_locked, aware}
use offimesh.Tokens.{record_spend, revoke_token}
use offimesh.Tokens.Held.{held}
use offimesh.Tokens.Calls.{
  spend_call, revoke_call, expire_call, cut_off_call, perform_all, token_calls-IsBacked,
}
use offimesh.Tokens.Backing.{IsBacked}
use offimesh.Tokens.Spending.{spend_all, spend_all-le-unused}
use offimesh.Tokens.Revocation.{revoke-refund_twice}
use offimesh.Tokens.Workers.{refund_specific_token, refunded, expire_tokens, is_overdue}
use offimesh.Tokens.Sweeps.{expire_tokens-settles, due}

-- A token whose cutoff lies after its expiry, as a software-backed device gets it.
abbrev first_token : OfflineToken
first_token = record {
  id = 7;
  token_id = some 70;
  serial = 700;
  user_id = 1;
  device_id = 3;
  device_fingerprint_hash = 9;
  amount_kobo = pos 200;
  amount_used_kobo = pos 50;
  nonce = 11;
  server_signature = 12;
  status = active;
  customer_spend_cutoff = aware 1000;
  expires_at = aware 500;
}

abbrev second_token : OfflineToken
second_token = record first_token {
  id = 8;
  token_id = some 80;
  serial = 800;
  amount_kobo = pos 150;
  amount_used_kobo = pos 0;
  status = spend_locked;
  expires_at = aware 2000;
}

abbrev books : Books
books = record {
  balances =
      (record {
        user_id = 1;
        available_balance_kobo = pos 40;
        locked_in_offline_tokens_kobo = pos 350;
      })
      ∷ [];
  entries = [];
}

abbrev db : Db
db = record {
  books = books;
  tokens = first_token ∷ second_token ∷ [];
  users = [];
  devices = [];
  transactions = [];
  events = [];
  settlements = [];
  signals = [];
  blacklist = [];
  activities = [];
  webhooks = [];
  accounts = [];
  verifications = [];
  audits = [];
}

db-IsBacked : IsBacked db
unfolding held ◌-ℤ◌ ◌+ℤ◌
db-IsBacked = ((omega arith, (omega arith, tt)), λ u. ground arith)

-- Two of these three calls go through and take 110 of the 150 that were left.
abbrev spends : List (ℤ × ℕ)
spends = (pos 60, 400) ∷ (pos 120, 410) ∷ (pos 50, 420) ∷ []

spends_take : (spend_all 7 spends db).0 ≡ pos 110
unfolding spend_all record_spend ◌+ℤ◌
spends_take = refl

spend_all-le-unused_example : (spend_all 7 spends db).0 ≤ℤ unused first_token
spend_all-le-unused_example = spend_all-le-unused 7 spends db first_token refl (omega arith)

revoke-refund_twice_example :
    let (reply, db') = refund_specific_token 7 (revoke_token 7 db).1 in
    (reply ≡ ok (refunded (unused first_token)))
    × (available 1 db'.books ≡ pos 40 +ℤ unused first_token +ℤ unused first_token)
unfolding ◌+ℤ◌ ◌-ℤ◌
revoke-refund_twice_example =
    revoke-refund_twice 7 db first_token db-IsBacked refl refl (omega arith)

expire_tokens-settles_example :
    let db' = (expire_tokens 501 db).1 in
    All (λ t. is_overdue 501 t ≡ false) db'.tokens
    × ((u : ℕ) → available u db'.books ≡ available u books +ℤ due 501 u db.tokens)
    × IsBacked db'
expire_tokens-settles_example = expire_tokens-settles 501 db db-IsBacked

token_calls-IsBacked_example : IsBacked (
    perform_all (spend_call 7 60 400 ∷ revoke_call 7 ∷ expire_call 501 ∷ cut_off_call 2000 ∷ []) db)
token_calls-IsBacked_example =
    token_calls-IsBacked
      (spend_call 7 60 400 ∷ revoke_call 7 ∷ expire_call 501 ∷ cut_off_call 2000 ∷ []) db
      db-IsBacked
