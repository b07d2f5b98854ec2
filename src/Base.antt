-- ===== src/Base.antt =====
-- The names that every module shares: the libraries', passed on, and those of the children.
mod Tests
mod Lists
mod Map
mod Sort
mod Fallible
pub use Tests.*
pub use Lists.*
pub use Sort.*
pub use Fallible.*
unfoldable pub use Sort.{sort}
unfoldable pub use Map.{HashMap, lookup, insert, remove, contains_key}
pub use Map.{
  keys, values, IsMap, lookup-insert, lookup-remove, insert-IsMap, remove-IsMap, Elem-keys,
  keys-Elem, Elem-values, values-Elem,
}
pub use Prim.Native.Nat.{ℕ, zero, suc, ◌+◌, ◌-◌, ◌*◌, ◌/◌, ◌%◌, ◌^◌, ◌≤◌, ◌<◌, min}
pub use mathlib.Core.Path.{◌≡◌, refl, sym, ap, ◌∙◌, subst}
pub use mathlib.Core.Logic.{◌≢◌, ◌↔◌, ◌⊎◌, inl, inr}
pub use mathlib.Core.Bool.{Bool, true, false, not, ◌&&◌, ◌||◌}
pub use mathlib.Core.Option.{Option, none, some}
pub use mathlib.Core.List.{List, [], ◌∷◌, ◌++◌, map, Permᴰ}
pub use mathlib.Core.List.Permᴰ
pub use native.Mathlib.Omega.{arith}
