-- ===== src/Base.antt =====
-- The names that the modules of every contract share: the libraries', passed on, and those of the
-- children.
mod Tests
mod Monad
mod Maps
mod Host
mod Results
mod Lists
pub mod Int
pub use Tests.*
pub use Monad.*
pub use Maps.*
pub use Host.*
pub use Results.*
pub use Lists.{length, to_list}
unfoldable pub use Lists.{collect}
pub use Prim.Native.Nat.{ℕ, zero, suc, ◌+◌, ◌-◌, ◌*◌, ◌/◌, ◌%◌, ◌≤◌, ◌<◌}
pub use mathlib.Core.Path.{◌≡◌, refl, sym, ap, ◌∙◌, fun_ext}
pub use mathlib.Core.Logic.{◌≢◌, ◌↔◌, ◌⊎◌, inl, inr}
pub use mathlib.Core.Bool.{Bool, true, false, ◌&&◌, ◌||◌, not}
pub use mathlib.Core.Option.{Option, none, some}
pub use mathlib.Core.List.{List, [], ◌∷◌, ◌++◌, map}
pub use native.Mathlib.Omega.{arith}
