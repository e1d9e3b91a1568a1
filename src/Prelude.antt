-- ===== src/Prelude.antt =====
-- The names that the other modules share: the libraries' names, passed on, tests on numbers,
-- signed integers, keyed tables and the state-and-exception monad of the services.
mod Tests
mod Int
mod Table
mod Rules
pub use Tests.*
pub use Int.{
  ℤ, pos, negsuc, pos_part, neg_part, ◌≤ℤ◌, ltb_ℤ, leb_ℤ, +ℤ_parts, -ℤ_parts, eq_of_parts, int_laws,
  +ℤ-zero, -ℤ-zero, +ℤ_assoc, min_ℤ, max_ℤ, is_zero,
}
unfoldable pub use Int.{◌+ℤ◌, ◌-ℤ◌}
pub use Table.*
pub use Rules.*
pub use Prim.Native.Nat.{ℕ, zero, suc, ◌+◌, ◌-◌, ◌*◌, ◌^◌, ◌≤◌, ◌<◌}
pub use mathlib.Core.Path.{◌≡◌, refl, sym, subst, ap, ◌∙◌}
pub use mathlib.Core.Logic.{◌≢◌, ◌↔◌, ◌⊎◌, inl, inr}
pub use mathlib.Core.Bool.{Bool, true, false, not, ◌&&◌, ◌||◌}
pub use mathlib.Core.Option.{Option, none, some}
pub use mathlib.Core.List.{List, [], ◌∷◌, ◌++◌, map}
pub use native.Mathlib.Omega.{arith}
