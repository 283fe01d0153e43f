-- ===== src/Prelude.antt =====
-- The names that the other modules share: the libraries', passed on, and those of the children.
mod Tests
mod Lists
mod Sort
mod Classes
mod Predicates
mod Perms
pub mod Text
pub mod Dict
pub mod Sets
pub mod Unique
pub mod Float
pub mod Order
pub mod Int
pub mod Strings
pub use Tests.*
pub use Lists.*
unfoldable pub use Sort.*
pub use Classes.*
pub use Predicates.*
pub use Perms.*
pub use Prim.Native.Nat.{ℕ, zero, suc, ◌+◌, ◌-◌, ◌*◌, ◌/◌, ◌%◌, ◌^◌, ◌≤◌, ◌<◌}
pub use mathlib.Core.Path.{◌≡◌, refl, sym, ap, subst, ◌∙◌}
pub use mathlib.Core.Logic.{◌≢◌, ◌↔◌, ◌⊎◌, inl, inr}
pub use mathlib.Core.Bool.{Bool, true, false, not, ◌&&◌, ◌||◌}
pub use mathlib.Core.Option.{Option, none, some}
pub use mathlib.Core.List.{List, [], ◌∷◌, ◌++◌, map, foldl, Perm, append-nil, append_assoc}
pub use native.Mathlib.Omega.{arith}
