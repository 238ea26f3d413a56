-- ===== src/Prelude.antt =====
-- The names that the other modules share: the libraries', passed on, and those of the children.
mod Tests
mod Lists
mod Strings
pub mod Assoc
mod Results
mod Search
pub mod Pieces
pub mod Sort
pub mod Existence
pub use Tests.*
pub use Lists.*
pub use Strings.{Text, ascii, text_eq_iff, text_eq_refl, text_eq_ne, is_prefix, strip_prefix}
unfoldable pub use Strings.{text_eq}
pub use Search.{
  strip_prefix-some, strip_prefix-append, contains, Lacks, Lacks→contains, contains→Lacks,
  split_once-some, split_once-append, split_once-none, none_ne_some,
}
unfoldable pub use Search.{split_once}
pub use Results.*
pub use Prim.Native.Nat.{ℕ, zero, suc, ◌+◌, ◌-◌, ◌*◌, ◌/◌, ◌%◌, ◌^◌, ◌≤◌, ◌<◌, min, max}
pub use mathlib.Core.Path.{◌≡◌, refl, sym, ap, ap₂, ◌∙◌, subst}
pub use mathlib.Core.Logic.{◌≢◌, ◌↔◌, ◌⊎◌, inl, inr}
pub use mathlib.Core.Bool.{Bool, true, false, not, ◌&&◌, ◌||◌}
pub use mathlib.Core.Option.{Option, none, some}
pub use mathlib.Core.List.{List, [], ◌∷◌, ◌++◌, map, append-nil, append_assoc, map-append}
pub use native.Mathlib.Omega.{arith}
