-- ===== src/Prelude.antt =====
-- Names that the modules share: those of the libraries, passed on, Boolean tests, lists and maps.
mod Tests
mod Lists
mod Maps
mod Texts
mod TextMaps
pub use Tests.*
unfoldable pub use Lists.*
unfoldable pub use Maps.*
unfoldable pub use Texts.*
unfoldable pub use TextMaps.*
pub use Prim.Native.Nat.{ℕ, zero, suc, ◌+◌, ◌-◌, ◌*◌, ◌/◌, ◌%◌, ◌^◌, ◌≤◌, ◌<◌, min, max}
pub use mathlib.Core.Path.{◌≡◌, refl, sym, ap, subst, ◌∙◌}
pub use mathlib.Core.Logic.{◌≢◌, ◌↔◌, ◌⊎◌, inl, inr}
pub use mathlib.Core.Bool.{Bool, true, false, not, ◌&&◌, ◌||◌}
pub use mathlib.Core.Option.{Option, none, some}
pub use mathlib.Core.List.{List, [], ◌∷◌, ◌++◌, map}
pub use native.Mathlib.Omega.{arith}

-- An identifier (a string of the source that is only compared).
abbrev pub Ident : Type 0
Ident = ℕ

-- A value that the modelled code only passes on (a URL, a body, a header set, a bundle).
abbrev pub Opaque : Type 0
Opaque = ℕ

-- Milliseconds or seconds since the epoch.
abbrev pub Time : Type 0
Time = ℕ
