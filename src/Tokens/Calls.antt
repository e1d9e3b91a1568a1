-- ===== src/Tokens/Calls.antt =====
-- Sequences of calls on the tokens, with the sweeps between them.
use offimesh.Prelude.{ℕ, pos, List, [], ◌∷◌, arith}
use offimesh.Models.{Db}
use offimesh.Tokens.{record_spend, revoke_token}
use offimesh.Tokens.Backing.{IsBacked}
use offimesh.Tokens.Revocation.{revoke_token-IsBacked}
use offimesh.Tokens.Spending.{record_spend-IsBacked}
use offimesh.Tokens.Sweeps.{expire_tokens-settles, apply_spend_cutoffs-marks}
use offimesh.Tokens.Workers.{apply_spend_cutoffs, expire_tokens}

-- A spend has the token, the amount and the time.
pub data TokenCall : Type 0 where
  spend_call : ℕ → ℕ → ℕ → TokenCall
  revoke_call : ℕ → TokenCall
  expire_call cut_off_call : ℕ → TokenCall

unfoldable pub perform : TokenCall → Db → Db
perform (spend_call k amount now) db = (record_spend k (pos amount) now db).1
perform (revoke_call k) db = (revoke_token k db).1
perform (expire_call now) db = (expire_tokens now db).1
perform (cut_off_call now) db = (apply_spend_cutoffs now db).1

unfoldable pub perform_all : List TokenCall → Db → Db
perform_all [] db = db
perform_all (call ∷ calls) db = perform_all calls (perform call db)

perform-IsBacked : (call : TokenCall) (db : Db) → IsBacked db → IsBacked (perform call db)
unfolding perform
perform-IsBacked (spend_call k amount now) db b =
    record_spend-IsBacked k (pos amount) now db (omega arith) b
perform-IsBacked (revoke_call k) db b = revoke_token-IsBacked k db b
perform-IsBacked (expire_call now) db b = (expire_tokens-settles now db b).2
perform-IsBacked (cut_off_call now) db b = (apply_spend_cutoffs-marks now db b).2

-- On backed tables, whatever is spent, in amounts that are not negative, revoked and swept, in
-- whatever order and at whatever times, calls that raise included: no token is overspent, and what the
-- open tokens of a user still hold stays locked for the user in the ledger.
pub token_calls-IsBacked :
    (calls : List TokenCall) (db : Db) → IsBacked db → IsBacked (perform_all calls db)
unfolding perform_all
token_calls-IsBacked [] db b = b
token_calls-IsBacked (call ∷ calls) db b =
    token_calls-IsBacked calls (perform call db) (perform-IsBacked call db b)
