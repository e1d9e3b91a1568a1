-- ===== src/Exceptions/Traces.antt =====
-- What an action may do to its state, whether it returns or raises: rules for the monad.
use offimesh.Prelude.{◌≡◌, ap, arith, subst, Bool, true, false, if◌then◌else◌}
use offimesh.Exceptions.Monad.{
  Error, Result, ok, err, Action, pure, raise, raise_if, gets, continue, ◌>>=◌,
}

-- Every run of `m` relates the state before to the state after.
pub record Runs {S A : Type 0} (R : S → S → Type 0) (m : Action S A) : Type 0 where
  pub at : (s : S) → R s (m s).1

module _ {S : Type 0} (R : S → S → Type 0) (same : (s : S) → R s s)
    (trans : (r s t : S) → R r s → R s t → R r t) where
  Runs-continue :
      {A B : Type 0} (s s' : S) (r : Result A) (f : A → Action S B)
      → R s s'
      → ((a : A) → Runs R (f a))
      → R s (continue r f s').1
  Runs-continue s s' (ok a) f h k = trans s s' (f a s').1 h ((k a).at s')
  Runs-continue s s' (err e) f h k = h

  pub Runs-bind :
      {A B : Type 0} (m : Action S A) (f : A → Action S B)
      → Runs R m
      → ((a : A) → Runs R (f a))
      → Runs R (m >>= f)
  Runs-bind m f h k = record { at = λ s. Runs-continue s (m s).1 (m s).0 f (h.at s) k }

  pub Runs-pure : {A : Type 0} (a : A) → Runs R (pure a)
  Runs-pure a = record { at = same }

  pub Runs-raise : {A : Type 0} (e : Error) → Runs R (raise {A = A} e)
  Runs-raise e = record { at = same }

  pub Runs-raise_if : (b : Bool) (e : Error) → Runs R (raise_if b e)
  Runs-raise_if b e = record { at = same }

  pub Runs-gets : {A : Type 0} (f : S → A) → Runs R (gets f)
  Runs-gets f = record { at = same }

  pub Runs-if :
      {A : Type 0} (b : Bool) (m n : Action S A) → Runs R m → Runs R n → Runs R (if b then m else n)
  Runs-if true m n h k = h
  Runs-if false m n h k = k

value_or : {A : Type 0} → A → Result A → A
value_or _ (ok a) = a
value_or d (err _) = d

pub ok-injective : {A : Type 0} (a b : A) → ok a ≡ ok b → a ≡ b
unfolding value_or
ok-injective a b e = ap (value_or a) e

-- Whatever `m` returns satisfies `P`.
pub record Yields {S A : Type 0} (P : A → Type 0) (m : Action S A) : Type 0 where
  pub at : (s : S) (a : A) → (m s).0 ≡ ok a → P a

module _ {S A : Type 0} {P : A → Type 0} where
  Yields-continue :
      {B : Type 0} (r : Result B) (s : S) (f : B → Action S A) (a : A)
      → ((b : B) → Yields P (f b))
      → (continue r f s).0 ≡ ok a
      → P a
  Yields-continue (ok b) s f a k e = (k b).at s a e
  Yields-continue (err x) s f a k e = absurd (ground arith)

  pub Yields-bind :
      {B : Type 0} (m : Action S B) (f : B → Action S A)
      → ((b : B) → Yields P (f b))
      → Yields P (m >>= f)
  Yields-bind m f k = record { at = λ s a e. Yields-continue (m s).0 (m s).1 f a k e }

  pub Yields-pure : (a : A) → P a → Yields {S = S} P (pure a)
  Yields-pure a p = record { at = λ s b e. subst P (ok-injective a b e) p }
