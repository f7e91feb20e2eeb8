-- ===== src/Base.antt =====
-- The names that every module of the library shares: the libraries' own, passed on, and those of
-- the children below. It models no file of the repository by itself.
mod Tests
mod Lists
mod Word
mod Outcome
mod Slices
mod Rotate
mod Bits
pub use Tests.*
pub use Lists.*
pub use Word.*
pub use Outcome.*
unfoldable pub use Slices.*
pub use Rotate.*
pub use Bits.*
pub use Prim.Native.Nat.{
  ℕ, zero, suc, ◌+◌, ◌-◌, ◌*◌, ◌/◌, ◌%◌, ◌^◌, ◌≤◌, ◌<◌, min, max, bit_and, bit_or, bit_xor,
}
pub use mathlib.Core.Path.{◌≡◌, refl, sym, ap, ap₂, ◌∙◌, subst, ◌≡⟨◌⟩◌, ◌∎}
pub use mathlib.Core.Logic.{◌≢◌, ◌↔◌, ◌⊎◌, inl, inr}
pub use mathlib.Core.Bool.{Bool, true, false, not, ◌&&◌, ◌||◌}
pub use mathlib.Core.Option.{Option, none, some}
pub use mathlib.Core.List.{List, [], ◌∷◌, ◌++◌, map, append-nil, append_assoc}
pub use native.Mathlib.Omega.{arith}
