-- ===== src/Prelude/Table.antt =====
-- A database table as the list of its rows, read through a key column.
use Prim.Native.Nat.{ℕ}
use mathlib.Core.Path.{◌≡◌, refl, subst}
use mathlib.Core.Logic.{◌≢◌, inl, inr}
use mathlib.Core.Bool.{Bool}
use mathlib.Core.Option.{Option, none, some}
use mathlib.Core.List.{List, [], ◌∷◌}
use native.Mathlib.Omega.{arith}
use offimesh.Prelude.Tests.{◌==◌, if◌then◌else◌, Bool-cases}
use offimesh.Prelude.Rules.{All}

abbrev pub filter_by {ℓ} : {A : Type ℓ} → (A → Bool) → List A → List A
filter_by p [] = []
filter_by p (x ∷ xs) = if p x then x ∷ filter_by p xs else filter_by p xs

module _ {ℓ} {A : Type ℓ} (key : A → ℕ) where
  -- `select(T).where(T.key == k)`, the first row.
  abbrev pub find : ℕ → List A → Option A
  find k [] = none
  find k (r ∷ rows) = if key r == k then some r else find k rows

  -- A flushed change of the row with the key of `new`.
  abbrev pub replace : A → List A → List A
  replace new [] = []
  replace new (r ∷ rows) = if key r == key new then new ∷ rows else r ∷ replace new rows

  pub key-find : (k : ℕ) (rows : List A) (r : A) → find k rows ≡ some r → key r ≡ k
  key-find k [] r e = absurd (ground arith)
  key-find k (x ∷ rows) r e = ground (arith, key-find k rows r)

  pub find-replace_self :
      (new : A) (rows : List A) (old : A)
      → find (key new) rows ≡ some old
      → find (key new) (replace new rows) ≡ some new
  find-replace_self new [] old e = absurd (ground arith)
  find-replace_self new (x ∷ rows) old e = ground (arith, find-replace_self new rows old)

  pub find-replace_ne :
      (k : ℕ) (new : A) (rows : List A) → key new ≢ k → find k (replace new rows) ≡ find k rows
  find-replace_ne k new [] h = refl
  find-replace_ne k new (x ∷ rows) h = ground (arith, find-replace_ne k new rows h)

module _ {ℓ κ} {A : Type ℓ} (key : A → ℕ) (P : A → Type κ) where
  pub All-find : (k : ℕ) (rows : List A) (r : A) → All P rows → find key k rows ≡ some r → P r
  All-find k [] r h e = absurd (ground arith)
  All-find k (x ∷ rows) r h e = elim (Bool-cases (key x == k)) [
    | inl hit ↦ subst P (ground arith) h.0
    | inr miss ↦ All-find k rows r h.1 (ground arith)
  ]

  pub All-replace : (new : A) (rows : List A) → P new → All P rows → All P (replace key new rows)
  All-replace new [] p h = tt
  All-replace new (x ∷ rows) p h = elim (Bool-cases (key x == key new)) [
    | inl hit ↦ rw hit (p, h.1)
    | inr miss ↦ rw miss (h.0, All-replace new rows p h.1)
  ]
