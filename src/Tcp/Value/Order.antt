-- ===== src/Tcp/Value/Order.antt =====
-- tcp/valuesize.go: what the comparisons of sequence numbers mean on the circle of 2 ^ 32 values.
use lneto.Base.{ℕ, ◌+◌, ◌^◌, ◌≤◌, ◌<◌, ◌≡◌, ◌≢◌, ◌↔◌, true, not, arith, IsU32, sub32}
use lneto.Tcp.Value.{Value, Size, less_than, in_range, add, in_window, sizeof}

-- `Sizeof` undoes `Add` on both sides: the distance from `v` to `v + s` is `s`, and going the
-- distance from `v` to `w` leads from `v` to `w`.
pub sizeof-add :
    (v w : Value) (s : Size)
    → IsU32 v
    → IsU32 w
    → IsU32 s
    → (sizeof v (add v s) ≡ s) × (add v (sizeof v w) ≡ w)
unfolding sizeof add
sizeof-add v w s hv hw hs = omega arith

-- `InWindow` holds exactly of the values that lie fewer than `size` steps after `first`.
pub in_window_iff :
    (v first : Value) (size : Size)
    → IsU32 v
    → IsU32 first
    → IsU32 size
    → (in_window v first size ≡ true) ↔ ((d : ℕ) × (d < size) × (v ≡ add first d))
unfolding in_window in_range add
in_window_iff v first size hv hf hs =
    ((λ h. (sub32 v first, ground arith, omega arith)), λ r. ground (arith, r.1, r.2))

-- `InRange` is membership of the arc from `a` up to and without `b`.
pub in_range_iff :
    (v a b : Value)
    → IsU32 v
    → IsU32 a
    → IsU32 b
    → (in_range v a b ≡ true) ↔ (sizeof a v < sizeof a b)
unfolding in_range sizeof
in_range_iff v a b hv ha hb = ((λ h. ground arith), λ h. ground arith)

-- `LessThan` holds of exactly the values at most half the circle ahead.
pub less_than_iff :
    (v w : Value)
    → IsU32 v
    → IsU32 w
    → (less_than v w ≡ true) ↔ ((0 < sizeof v w) × (sizeof v w ≤ 2 ^ 31))
unfolding less_than sizeof
less_than_iff v w hv hw = ((λ h. ground arith), λ h. ground arith)

-- Two distinct values are ordered by `LessThan` in exactly one direction, unless they are
-- opposite on the circle; opposite values are each before the other.
pub less_than_total :
    (v w : Value)
    → IsU32 v
    → IsU32 w
    → v ≢ w
    → (sizeof v w ≢ 2 ^ 31 → less_than w v ≡ not (less_than v w))
      × (sizeof v w ≡ 2 ^ 31 → (less_than v w ≡ true) × (less_than w v ≡ true))
unfolding less_than sizeof
less_than_total v w hv hw ne = ((λ h. ground arith), λ h. ground arith)

-- `LessThan` is transitive as long as the whole stretch is at most half the circle.
pub less_than_trans :
    (u v w : Value)
    → IsU32 u
    → IsU32 v
    → IsU32 w
    → sizeof u v + sizeof v w ≤ 2 ^ 31
    → less_than u v ≡ true
    → less_than v w ≡ true
    → less_than u w ≡ true
unfolding less_than sizeof
less_than_trans u v w hu hv hw s p q = ground arith
