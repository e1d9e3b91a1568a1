-- ===== src/Sync/Charges.antt =====
-- What is charged to tokens against what the transactions say.
use offimesh.Prelude.{
  ℕ, ℤ, pos, ◌+ℤ◌, ◌≡◌, ◌≢◌, refl, ap, sym, ◌∙◌, false, some, List, [], ◌∷◌, ◌==◌, if◌then◌else◌,
  find, replace, is_some, arith, int_laws, +ℤ_assoc, pos_part, neg_part, inl, inr, Bool-cases,
}
use offimesh.Exceptions.{Result}
use offimesh.Models.{Db, OfflineToken, token_key, Transaction}
use offimesh.Sync.Cache.{Redis, World}
use offimesh.Sync.Requests.{TxData, Request, Outcome}
use offimesh.Sync.{public_key, charged_token, charge, sync_batch}
use offimesh.Sync.Steps.{Effect, nothing, takes}
use offimesh.Sync.Batches.{sync_batch-keeps}
use offimesh.Sync.Limits.{IsDistinct}

-- The used amount of the rows with one id.
unfoldable pub used : ℕ → List OfflineToken → ℤ
used k [] = pos 0
used k (t ∷ ts) = (if t.id == k then t.amount_used_kobo else pos 0) +ℤ used k ts

-- The amounts of the transactions that were paid from one token.
unfoldable pub paid_from : ℕ → List Transaction → ℤ
paid_from k [] = pos 0
paid_from k (t ∷ ts) = (if t.offline_token_id == k then t.amount_kobo else pos 0) +ℤ paid_from k ts

-- Every token has been charged what its transactions say, beside `base`.
unfoldable pub IsCharged : (ℕ → ℤ) → Db → Type 0
IsCharged base db =
    IsDistinct token_key db.tokens
    × ((k : ℕ) → used k db.tokens ≡ paid_from k db.transactions +ℤ base k)

module _ {A : Type 0} (key : A → ℕ) where
  unfound :
      (other : A → ℕ) (k : ℕ) (rows : List A) (r : A) (n : ℕ)
      → is_some (find key n rows) ≡ false
      → find other k rows ≡ some r
      → key r ≢ n
  unfound other k [] r n absent e = absurd (ground arith)
  unfound other k (x ∷ rows) r n absent e = ground (arith, unfound other k rows r n)

  -- Where no key stands twice, a row is found under its own key.
  find_own :
      (other : A → ℕ) (k : ℕ) (rows : List A) (r : A)
      → IsDistinct key rows
      → find other k rows ≡ some r
      → find key (key r) rows ≡ some r
  unfolding IsDistinct
  find_own other k [] r d e = absurd (ground arith)
  find_own other k (x ∷ rows) r d e = elim (Bool-cases (other x == k)) [
    | inl hit ↦ ground arith
    | inr miss ↦
        let rest : find other k rows ≡ some r = ground arith in
        ground (arith, find_own other k rows r d.1 rest, unfound other k rows r (key x) d.0 rest)
  ]

  replace-absent :
      (n : ℕ) (new : A) (rows : List A)
      → is_some (find key n (replace key new rows)) ≡ is_some (find key n rows)
  replace-absent n new [] = refl
  replace-absent n new (x ∷ rows) = ground (arith, replace-absent n new rows)

  replace-IsDistinct :
      (new : A) (rows : List A) → IsDistinct key rows → IsDistinct key (replace key new rows)
  unfolding IsDistinct
  replace-IsDistinct new [] d = tt
  replace-IsDistinct new (x ∷ rows) d = elim (Bool-cases (key x == key new)) [
    | inl hit ↦ let same : key x ≡ key new = ground arith in rw hit (rw same at d.0, d.1)
    | inr miss ↦ rw miss (replace-absent (key x) new rows ∙ d.0, replace-IsDistinct new rows d.1)
  ]

abbrev share : ℕ → OfflineToken → ℤ
share k t = if t.id == k then t.amount_used_kobo else pos 0

used-replace :
    (k : ℕ) (new : OfflineToken) (rows : List OfflineToken) (old : OfflineToken)
    → find token_key (token_key new) rows ≡ some old
    → used k (replace token_key new rows) +ℤ share k old ≡ used k rows +ℤ share k new
unfolding used
used-replace k new [] old e = absurd (ground arith)
used-replace k new (x ∷ rows) old e = elim (Bool-cases (x.id == new.id)) [
  | inl hit ↦ let same : x ≡ old = ground arith in rw hit (rw same (omega int_laws))
  | inr miss ↦
      let rest : find token_key (token_key new) rows ≡ some old = ground arith in
      rw miss (
        +ℤ_assoc (share k x) (used k (replace token_key new rows)) (share k old)
        ∙ ap (λ s. share k x +ℤ s) (used-replace k new rows old rest)
        ∙ sym (+ℤ_assoc (share k x) (used k rows) (share k new)))
]

charge_up : (u u' p b a o : ℤ) → u' +ℤ o ≡ u +ℤ (o +ℤ a) → u ≡ p +ℤ b → u' ≡ a +ℤ p +ℤ b
charge_up u u' p b a o e h =
    omega (int_laws, ap pos_part e, ap neg_part e, ap pos_part h, ap neg_part h)

charge_none : (u u' p b : ℤ) → u' +ℤ pos 0 ≡ u +ℤ pos 0 → u ≡ p +ℤ b → u' ≡ pos 0 +ℤ p +ℤ b
charge_none u u' p b e h =
    omega (int_laws, ap pos_part e, ap neg_part e, ap pos_part h, ap neg_part h)

-- The share of a token grows by the amount that the new transaction adds.
grows :
    (k : ℕ) (old : OfflineToken) (r : Request) (u u' p b : ℤ)
    → u' +ℤ share k old ≡ u +ℤ share k (charged_token r old)
    → u ≡ p +ℤ b
    → u' ≡ (if old.id == k then r.amount_kobo else pos 0) +ℤ p +ℤ b
grows k old r u u' p b e h = elim (Bool-cases (old.id == k)) [
  | inl hit ↦ rw hit (charge_up u u' p b r.amount_kobo old.amount_used_kobo (rw hit at e) h)
  | inr miss ↦ rw miss (charge_none u u' p b (rw miss at e) h)
]

taken-IsCharged :
    (base : ℕ → ℤ) (o : Result Outcome) (d d' : Db)
    → Effect o d d'
    → IsCharged base d
    → IsCharged base d'
unfolding IsCharged charge paid_from
taken-IsCharged base o d d' (nothing _) h = h
taken-IsCharged base o d d' (takes r t e live fits new fresh) (h, k) = (
  replace-IsDistinct token_key (charged_token r t) d.tokens h,
  λ n.
      grows n t r (used n d.tokens) _ (paid_from n d.transactions) (base n)
        (used-replace n (charged_token r t) d.tokens t
          (find_own token_key public_key r.token_id d.tokens t h e))
        (k n),
)

-- A batch charges tokens with what its transactions say: where no token id stands twice, the used
-- amount of a token and the sum of the transactions paid from it differ afterwards by what they
-- differed by before, whatever the entries, whatever Redis answers, and whether the call returns or
-- raises.
pub sync_batch-IsCharged :
    {C : Type 0} (redis : Redis C) (base : ℕ → ℤ) (b device_id : ℕ) (txs : List TxData) (now : ℕ)
    (w : World C)
    → IsCharged base w.db
    → IsCharged base (sync_batch redis b device_id txs now w).1.db
unfolding IsCharged
sync_batch-IsCharged redis base b device_id txs now w h =
    sync_batch-keeps redis (IsCharged base) (taken-IsCharged base) b device_id txs now w (λ db k. k)
      h
