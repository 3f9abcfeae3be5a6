-- ===== src/Prelude.antt =====
-- The names that the other modules share: the libraries', passed on, and those of the children.
mod Tests
mod Lists
mod Int
mod Text
mod Order
mod Maps
mod Names
mod Keys
mod Clock
mod Sort
mod Sets
mod Scan
mod Latest
mod Ranks
mod Bytes
mod Cut
mod Format
mod Fields
unfoldable pub use Tests.*
unfoldable pub use Lists.*
unfoldable pub use Int.*
unfoldable pub use Text.*
unfoldable pub use Order.*
unfoldable pub use Maps.*
unfoldable pub use Names.*
unfoldable pub use Keys.*
unfoldable pub use Clock.*
unfoldable pub use Sort.*
unfoldable pub use Sets.*
unfoldable pub use Scan.*
unfoldable pub use Latest.*
unfoldable pub use Ranks.*
unfoldable pub use Bytes.*
unfoldable pub use Cut.*
unfoldable pub use Format.*
unfoldable pub use Fields.*
pub use Prim.Native.Nat.{ℕ, zero, suc, ◌+◌, ◌-◌, ◌*◌, ◌/◌, ◌%◌, ◌^◌, ◌≤◌, ◌<◌}
pub use Prim.Native.String.{String}
pub use mathlib.Core.Path.{◌≡◌, refl, sym, ap, subst, ◌∙◌}
pub use mathlib.Core.Logic.{◌≢◌, ◌↔◌, ◌⊎◌, inl, inr}
pub use mathlib.Core.Bool.{Bool, true, false, not, ◌&&◌, ◌||◌}
pub use mathlib.Core.Option.{Option, none, some}
pub use mathlib.Core.List.{List, [], ◌∷◌, ◌++◌, map}
pub use native.Mathlib.Omega.{arith}
pub use text.Mathlib.TextEquality.{eq_iff}
pub use text.Mathlib.TextPositions.{eq_refl}
