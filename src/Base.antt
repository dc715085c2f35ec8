-- ===== src/Base.antt =====
-- The names that the other modules share: the libraries' are passed on, the children add the
-- Boolean tests (`Tests`), lists (`Lists`) and Go's 64-bit integers (`Word`).
pub mod Tests
pub mod Word
pub mod Lists
pub mod Dict
pub mod Cells
pub use Tests.*
pub use Lists.*
pub use Word.*
pub use Cells.*
pub use Prim.Native.Nat.{ℕ, zero, suc, ◌+◌, ◌-◌, ◌*◌, ◌/◌, ◌%◌, ◌^◌, ◌≤◌, ◌<◌}
pub use mathlib.Core.Path.{◌≡◌, refl, sym, ap, ap₂, ◌∙◌, fun_ext}
pub use mathlib.Core.Logic.{◌≢◌, ◌↔◌, ◌⊎◌, inl, inr}
pub use mathlib.Core.Bool.{Bool, true, false, not, ◌&&◌, ◌||◌}
pub use mathlib.Core.Option.{Option, none, some}
pub use mathlib.Core.List.{List, [], ◌∷◌, ◌++◌, map}
pub use native.Mathlib.Omega.{arith}
