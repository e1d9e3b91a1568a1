-- ===== src/Models/Clock.antt =====
-- Python's datetimes, in seconds. `datetime.now(timezone.utc)` is aware, `datetime.utcnow()` is
-- naive, and an order between the two kinds raises `TypeError`.
use offimesh.Prelude.{ℕ, ◌*◌, Bool, ltb, leb}
use offimesh.Exceptions.{Action, pure, raise, type_error}

pub data DateTime : Type 0 where
  naive aware : ℕ → DateTime

-- The instant of a `timestamptz` column, by which queries compare.
abbrev pub instant : DateTime → ℕ
instant (naive n) = n
instant (aware n) = n

abbrev pub hours : ℕ → ℕ
hours n = n * 3600

-- `x > y`
abbrev pub is_after : {S : Type 0} → DateTime → DateTime → Action S Bool
is_after (naive x) (naive y) = pure (ltb y x)
is_after (aware x) (aware y) = pure (ltb y x)
is_after _ _ = raise type_error

-- `x >= y`
abbrev pub is_at_or_after : {S : Type 0} → DateTime → DateTime → Action S Bool
is_at_or_after (naive x) (naive y) = pure (leb y x)
is_at_or_after (aware x) (aware y) = pure (leb y x)
is_at_or_after _ _ = raise type_error
