-- ===== src/Tokens/Held.antt =====
-- What the open tokens of a user still hold, and how it follows the changes of one row.
use offimesh.Prelude.{
  ℕ, ℤ, pos, ◌+ℤ◌, ◌≤ℤ◌, ◌≡◌, ap, inl, inr, not, ◌&&◌, some, List, [], ◌∷◌, arith, ◌==◌,
  if◌then◌else◌, find, replace, All, Bool-cases, int_laws, pos_part, neg_part, +ℤ_parts, -ℤ_parts,
}
use offimesh.Models.{OfflineToken, token_key, unused}
use offimesh.Tokens.{is_closed}

-- What is spent of a token lies between nothing and its amount.
abbrev pub IsSound : OfflineToken → Type 0
IsSound t = (pos 0 ≤ℤ t.amount_used_kobo) × (t.amount_used_kobo ≤ℤ t.amount_kobo)

-- What a token holds for the user: what is left of it, unless it was revoked or has expired.
abbrev pub part : ℕ → OfflineToken → ℤ
part u t = if t.user_id == u && not (is_closed t.status) then unused t else pos 0

unfoldable pub held : ℕ → List OfflineToken → ℤ
held u [] = pos 0
held u (t ∷ ts) = part u t +ℤ held u ts

pub part-nonneg : (u : ℕ) (t : OfflineToken) → IsSound t → pos 0 ≤ℤ part u t
part-nonneg u t h = ground (arith, -ℤ_parts t.amount_kobo t.amount_used_kobo)

pub held-nonneg : (u : ℕ) (ts : List OfflineToken) → All IsSound ts → pos 0 ≤ℤ held u ts
unfolding held
held-nonneg u [] h = omega arith
held-nonneg u (t ∷ ts) h =
    omega (arith, +ℤ_parts (part u t) (held u ts), part-nonneg u t h.0, held-nonneg u ts h.1)

-- A token holds no more than all tokens of the user do.
pub part-le-held :
    (u k : ℕ) (ts : List OfflineToken) (t : OfflineToken)
    → All IsSound ts
    → find token_key k ts ≡ some t
    → part u t ≤ℤ held u ts
unfolding held
part-le-held u k [] t h e = absurd (ground arith)
part-le-held u k (x ∷ ts) t h e = elim (Bool-cases (token_key x == k)) [
  | inl hit ↦
      let same : x ≡ t = ground arith in
      rw (← same) (omega (arith, +ℤ_parts (part u x) (held u ts), held-nonneg u ts h.1))
  | inr miss ↦ omega (
    arith,
    +ℤ_parts (part u x) (held u ts),
    part-nonneg u x h.0,
    part-le-held u k ts t h.1 (ground arith),
  )
]

swap_part : (a b c d : ℤ) → a +ℤ b ≡ c +ℤ d → (x : ℤ) → x +ℤ a +ℤ b ≡ x +ℤ c +ℤ d
swap_part a b c d e x = omega (int_laws, ap pos_part e, ap neg_part e)

-- A changed row changes the sum by its part.
pub held-replace :
    (u : ℕ) (new : OfflineToken) (ts : List OfflineToken) (old : OfflineToken)
    → find token_key (token_key new) ts ≡ some old
    → held u (replace token_key new ts) +ℤ part u old ≡ held u ts +ℤ part u new
unfolding held
held-replace u new [] old e = absurd (ground arith)
held-replace u new (x ∷ ts) old e = elim (Bool-cases (token_key x == token_key new)) [
  | inl hit ↦ let same : x ≡ old = ground arith in rw (hit, ← same) (omega int_laws)
  | inr miss ↦ rw miss (
      swap_part (held u (replace token_key new ts)) (part u old) (held u ts) (part u new)
        (held-replace u new ts old (ground arith)) (part u x))
]
