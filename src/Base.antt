-- ===== src/Base.antt =====
-- The names that the other modules share: the libraries', passed on, and the helpers of the
-- modules below. Texts and identifiers of the program are native strings.
mod Tests
mod Lists
mod Decimal
mod Search
mod Sorted
mod Order
unfoldable pub use Tests.*
pub use Lists.*
unfoldable pub use Decimal.{itoa}
unfoldable pub use Search.{has_prefix, contains, cut}
pub use Search.{contains-append}
unfoldable pub use Sorted.*
unfoldable pub use Order.{text_lt}
pub use Order.{text_lt_irrefl, text_lt_trans, text_lt_total}
pub use Decimal.{itoa-ne-dashed, itoa-injective, append_cancel}
pub use Prim.Native.Nat.{ℕ, zero, suc, ◌+◌, ◌-◌, ◌*◌, ◌/◌, ◌%◌, ◌^◌, ◌≤◌, ◌<◌}
pub use Prim.Native.String.{String, ◌++◌ as ◌<>◌}
pub use mathlib.Core.Path.{◌≡◌, refl, sym, ap, ◌∙◌, subst}
pub use mathlib.Core.Logic.{◌≢◌, ◌↔◌, ◌⊎◌, inl, inr, ite}
pub use mathlib.Core.Bool.{Bool, true, false, ◌&&◌, ◌||◌, not}
pub use mathlib.Core.Option.{Option, none, some}
pub use mathlib.Core.List.{List, [], ◌∷◌, ◌++◌, map, append_assoc, append-nil}
pub use native.Mathlib.Omega.{arith}
