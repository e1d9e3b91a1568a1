-- ===== src/Sync/Limits.antt =====
-- Tables that synchronisation keeps in order.
use offimesh.Prelude.{
  ℕ, ◌≤ℤ◌, ltb_ℤ, ◌≡◌, false, List, [], ◌∷◌, find, is_some, arith, +ℤ_parts, -ℤ_parts, All,
  All-replace,
}
use offimesh.Exceptions.{Result}
use offimesh.Models.{Db, OfflineToken, token_key, unused, tx_key}
use offimesh.Sync.Cache.{Redis, World}
use offimesh.Sync.Requests.{TxData, Request, Outcome}
use offimesh.Sync.{nonce_of, charged_token, charge, sync_batch}
use offimesh.Sync.Steps.{Effect, nothing, takes}
use offimesh.Sync.Batches.{sync_batch-keeps}

-- No more than its amount is spent of a token.
abbrev pub IsWithinLimit : OfflineToken → Type 0
IsWithinLimit t = t.amount_used_kobo ≤ℤ t.amount_kobo

-- No two rows have the same key.
unfoldable pub IsDistinct : {A : Type 0} → (A → ℕ) → List A → Type 0
IsDistinct key [] = Unit
IsDistinct key (x ∷ xs) = (is_some (find key (key x) xs) ≡ false) × IsDistinct key xs

unfoldable pub IsOrderly : Db → Type 0
IsOrderly db =
    All IsWithinLimit db.tokens
    × IsDistinct tx_key db.transactions
    × IsDistinct nonce_of db.transactions

charged-IsWithinLimit :
    (r : Request) (t : OfflineToken)
    → ltb_ℤ (unused t) r.amount_kobo ≡ false
    → IsWithinLimit (charged_token r t)
charged-IsWithinLimit r t fits =
    ground
      (arith, +ℤ_parts t.amount_used_kobo r.amount_kobo, -ℤ_parts t.amount_kobo t.amount_used_kobo)

taken-IsOrderly : (o : Result Outcome) (d d' : Db) → Effect o d d' → IsOrderly d → IsOrderly d'
unfolding charge IsOrderly IsDistinct
taken-IsOrderly o d d' (nothing _) h = h
taken-IsOrderly o d d' (takes r t e live fits new fresh) (h, k, l) = (
  All-replace token_key IsWithinLimit (charged_token r t) d.tokens (charged-IsWithinLimit r t fits)
      h,
  (new, k),
  (fresh, l),
)

-- Whatever entries a batch has, whatever Redis answers, and whether the call returns or raises: if
-- every token was within its limit and no transaction id or nonce stood twice, it is so afterwards.
pub sync_batch-IsOrderly :
    {C : Type 0} (redis : Redis C) (b device_id : ℕ) (txs : List TxData) (now : ℕ) (w : World C)
    → IsOrderly w.db
    → IsOrderly (sync_batch redis b device_id txs now w).1.db
unfolding IsOrderly
sync_batch-IsOrderly redis b device_id txs now w h =
    sync_batch-keeps redis IsOrderly taken-IsOrderly b device_id txs now w (λ db k. k) h
