-- ===== src/Tcp/Reassembly/Place.antt =====
-- tcp/reassembly.go: staging bytes behind a gap leaves the other held segments in place.
use lneto.Base.{
  ℕ, ◌+◌, ◌-◌, ◌^◌, ◌≤◌, ◌<◌, min, ◌≡◌, refl, ap, ap₂, ◌∙◌, ◌⊎◌, inl, inr, List, [], ◌∷◌, ◌++◌,
  append-nil, arith, ltb, IsU32, length, take, drop, length-take, length-drop, drop-append,
  take-append, take-take, drop-take, take_at, drop_at, write_at,
}
use lneto.Tcp.Value.{Value, less_than, add, sizeof}
use lneto.Internal.Ring.Stage.{drop-write_at}
use lneto.Tcp.Reassembly.{Held}
use lneto.Tcp.Reassembly.Stream.{bytes, length-bytes, Placed, Chain}

take_within : (m : ℕ) (a x : List ℕ) → m ≤ length a → take m (a ++ x) ≡ take m a
take_within m a x h =
    take-append m a x
    ∙ ap (λ k. take m a ++ take k x) {x = m - length a} {y = 0} (omega arith)
    ∙ append-nil (take m a)

-- Writing `b` at `d` changes no window before it, none behind it, and shows `b` at `d`.
window_before :
    (l b : List ℕ) (d o m : ℕ)
    → o + m ≤ d
    → d ≤ length l
    → take m (drop o (write_at l d b)) ≡ take m (drop o l)
unfolding write_at
window_before l b d o m h k =
    let x = b ++ drop (d + length b) l in
    let e : length (drop o (take d l)) ≡ d - o =
      omega (arith, length-drop o (take d l), length-take d l) in
    ap (take m) (drop-append o (take d l) x)
    ∙ take_within m (drop o (take d l)) (drop (o - length (take d l)) x) (omega arith)
    ∙ ap (λ k. take m (drop o (take k l))) {x = d} {y = o + (d - o)} (omega arith)
    ∙ ap (take m) (drop-take o (d - o) l)
    ∙ take-take m (d - o) (drop o l)
    ∙ ap (λ k. take k (drop o l)) {x = min m (d - o)} {y = m} (omega arith)

window_behind :
    (l b : List ℕ) (d o m : ℕ)
    → d + length b ≤ o
    → d ≤ length l
    → take m (drop o (write_at l d b)) ≡ take m (drop o l)
window_behind l b d o m h k = ap (take m) (drop-write_at o d l b k h)

window_at : (l b : List ℕ) (d : ℕ) → d ≤ length l → take (length b) (drop d (write_at l d b)) ≡ b
unfolding write_at
window_at l b d k =
    ap (take (length b))
      (drop_at (take d l) (b ++ drop (d + length b) l) (omega (arith, length-take d l)))
    ∙ take_at b (drop (d + length b) l) refl

pub Placed-elsewhere :
    (stream : Value → ℕ) (base : Value) (l b : List ℕ) (lo lo' d : ℕ) (s : Held)
    → d ≤ length l
    → lo' ≤ sizeof base s.seq
    → (sizeof base s.seq + s.n ≤ d) ⊎ (d + length b ≤ sizeof base s.seq)
    → Placed stream base 0 l lo s
    → Placed stream base 0 (write_at l d b) lo' s
Placed-elsewhere stream base l b lo lo' d s k h apart a =
    let o = sizeof base s.seq in
    let same : take s.n (drop (o - 0) (write_at l d b)) ≡ take s.n (drop (o - 0) l) = elim apart [
      | inl y ↦ window_before l b d (o - 0) s.n (omega arith) k
      | inr y ↦ window_behind l b d (o - 0) s.n (omega arith) k
    ] in
    record {
      seq_in = a.seq_in;
      above = h;
      some_bytes = a.some_bytes;
      staged = λ q. same ∙ a.staged q;
    }

pub Chain-behind :
    (stream : Value → ℕ) (base : Value) (l b : List ℕ) (hi lo d : ℕ) (held : List Held)
    → d ≤ length l
    → d + length b ≤ lo
    → Chain stream base 0 l hi lo held
    → Chain stream base 0 (write_at l d b) hi lo held
unfolding Chain
Chain-behind stream base l b hi lo d [] k h c = c
Chain-behind stream base l b hi lo d (s ∷ ss) k h (a, c) = (
  Placed-elsewhere stream base l b lo lo d s k a.above (inr (omega (arith, a.above))) a,
  Chain-behind stream base l b hi (sizeof base s.seq + s.n) d ss k (omega (arith, a.above)) c,
)

pub Placed-here :
    (stream : Value → ℕ) (base seq : Value) (l b : List ℕ) (lo n : ℕ)
    → IsU32 seq
    → lo ≤ sizeof base seq
    → sizeof base seq ≤ length l
    → 0 < n
    → b ≡ bytes stream seq n
    → Placed stream base 0 (write_at l (sizeof base seq) b) lo (record { seq = seq; n = n })
Placed-here stream base seq l b lo n hs h k p e =
    let len : n ≡ length b = omega (arith, ap length e, length-bytes stream seq n) in
    record {
      seq_in = hs;
      above = h;
      some_bytes = p;
      staged = λ q.
          ap (λ (k : ℕ × ℕ). take k.0 (drop k.1 (write_at l (sizeof base seq) b)))
            {x = (n, sizeof base seq - 0)} {y = (length b, sizeof base seq)}
            (ap₂ (λ u v. (u, v)) len (omega arith))
          ∙ window_at l b (sizeof base seq) k
          ∙ e;
    }

pub less_than_offset :
    (base u v : Value)
    → IsU32 base
    → IsU32 u
    → IsU32 v
    → sizeof base u < 2 ^ 31
    → sizeof base v ≤ 2 ^ 31
    → less_than u v ≡ ltb (sizeof base u) (sizeof base v)
unfolding less_than sizeof
less_than_offset base u v hb hu hv p q = ground arith

pub offset_end :
    (base u : Value) (n : ℕ)
    → IsU32 base
    → IsU32 u
    → sizeof base u + n < 2 ^ 32
    → sizeof base (add u n) ≡ sizeof base u + n
unfolding sizeof add
offset_end base u n hb hu h = omega arith
