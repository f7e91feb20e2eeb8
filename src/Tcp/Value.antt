-- ===== src/Tcp/Value.antt =====
-- tcp/valuesize.go: sequence numbers (`Value`) and window sizes (`Size`), both `uint32`.
pub mod Order
use lneto.Base.{ℕ, Bool, ◌||◌, ltb, ◌==◌, add32, sub32, is_negative32}

abbrev pub Value : Type 0
Value = ℕ

abbrev pub Size : Type 0
Size = ℕ

unfoldable pub less_than : Value → Value → Bool
less_than v w = is_negative32 (sub32 v w)

unfoldable pub less_than_eq : Value → Value → Bool
less_than_eq v w = v == w || less_than v w

unfoldable pub in_range : Value → Value → Value → Bool
in_range v a b = ltb (sub32 v a) (sub32 b a)

unfoldable pub add : Value → Size → Value
add v s = add32 v s

unfoldable pub in_window : Value → Value → Size → Bool
in_window v first size = in_range v first (add first size)

unfoldable pub sizeof : Value → Value → Size
sizeof v w = sub32 w v

-- `v.UpdateForward(s)`: the new `*v`
unfoldable pub update_forward : Value → Size → Value
update_forward v s = add32 v s
