-- ===== src/Tcp/Reassembly/Stream.antt =====
-- tcp/reassembly.go: what is held, against the peer's stream. The stream gives a byte to each
-- sequence number; all numbers in use lie within half the circle.
use lneto.Base.{
  ℕ, zero, suc, ◌+◌, ◌-◌, ◌≤◌, ◌<◌, ◌≡◌, refl, ap, ◌∙◌, List, [], ◌∷◌, ◌++◌, append-nil, arith,
  IsU32, length, take, drop, length-drop, drop-append, take-append, drop-drop,
}
use lneto.Tcp.Value.{Value, add, sizeof}
use lneto.Internal.Ring.{Ring, free}
use lneto.Internal.Ring.Line.{line}
use lneto.Tcp.Reassembly.{Held, Reassembly}

-- the bytes from a sequence number on
unfoldable pub bytes : (Value → ℕ) → Value → ℕ → List ℕ
bytes stream v zero = []
bytes stream v (suc n) = stream v ∷ bytes stream (add v 1) n

pub length-bytes : (stream : Value → ℕ) (v : Value) (n : ℕ) → length (bytes stream v n) ≡ n
unfolding bytes
length-bytes stream v zero = refl
length-bytes stream v (suc n) = ap suc (length-bytes stream (add v 1) n)

pub add-add : (v : Value) (m n : ℕ) → add (add v m) n ≡ add v (m + n)
unfolding add
add-add v m n = omega arith

add-suc : (v : Value) (m : ℕ) → add v (suc m) ≡ add (add v 1) m
unfolding add
add-suc v m = omega arith

pub add-IsU32 : (v : Value) (m : ℕ) → IsU32 (add v m)
unfolding add
add-IsU32 v m = omega arith

pub add_zero : (v : Value) → IsU32 v → add v 0 ≡ v
unfolding add
add_zero v h = omega arith

pub bytes_append :
    (stream : Value → ℕ) (v : Value) (m n : ℕ)
    → IsU32 v
    → bytes stream v m ++ bytes stream (add v m) n ≡ bytes stream v (m + n)
unfolding bytes
bytes_append stream v zero n h =
    ap (λ w. bytes stream w n) (add_zero v h)
    ∙ ap (λ k. bytes stream v k) {x = n} {y = 0 + n} (omega arith)
bytes_append stream v (suc m) n h =
    ap (λ l. stream v ∷ l)
      (ap (λ w. bytes stream (add v 1) m ++ bytes stream w n) (add-suc v m)
        ∙ bytes_append stream (add v 1) m n (add-IsU32 v 1))
    ∙ ap (λ k. bytes stream v k) {x = suc (m + n)} {y = suc m + n} (omega arith)

-- The bytes of a held segment are where its sequence number says, `p` places into the stream of
-- the segments since `base`: `l` is the ring's line from there on.
pub record Placed (stream : Value → ℕ) (base : Value) (p : ℕ) (l : List ℕ) (lo : ℕ) (s : Held)
    : Type 0 where
  pub seq_in : IsU32 s.seq
  pub above : lo ≤ sizeof base s.seq
  pub some_bytes : 0 < s.n
  pub staged :
      p ≤ sizeof base s.seq → take s.n (drop (sizeof base s.seq - p) l) ≡ bytes stream s.seq s.n

-- Held segments, in order and apart, from `lo` up to `hi` places after `base`.
unfoldable pub Chain : (Value → ℕ) → Value → ℕ → List ℕ → ℕ → ℕ → List Held → Type 0
Chain stream base p l hi lo [] = lo ≤ hi
Chain stream base p l hi lo (s ∷ ss) =
    Placed stream base p l lo s × Chain stream base p l hi (sizeof base s.seq + s.n) ss

pub Chain-le :
    (stream : Value → ℕ) (base : Value) (p : ℕ) (l : List ℕ) (hi lo : ℕ) (held : List Held)
    → Chain stream base p l hi lo held
    → lo ≤ hi
unfolding Chain
Chain-le stream base p l hi lo [] c = c
Chain-le stream base p l hi lo (s ∷ ss) (a, c) =
    omega (arith, a.above, Chain-le stream base p l hi (sizeof base s.seq + s.n) ss c)

-- A window that moved `n` places on shows the same bytes.
window_moved :
    (l x : List ℕ) (n d m : ℕ)
    → n ≤ d
    → d + m ≤ length l
    → take m (drop (d - n) (drop n l ++ x)) ≡ take m (drop d l)
window_moved l x n d m h k =
    let e = length-drop d l in
    ap (take m) (
      drop-append (d - n) (drop n l) x
      ∙ ap (λ y. y ++ drop (d - n - length (drop n l)) x)
          (drop-drop (d - n) n l ∙ ap (λ k. drop k l) {x = n + (d - n)} {y = d} (omega arith)))
    ∙ take-append m (drop d l) (drop (d - n - length (drop n l)) x)
    ∙ ap (λ k. take m (drop d l) ++ take k (drop (d - n - length (drop n l)) x))
        {x = m - length (drop d l)} {y = 0} (omega (arith, e))
    ∙ append-nil (take m (drop d l))

pub Placed-moved :
    {stream : Value → ℕ} {base : Value} {p lo : ℕ} {l : List ℕ} {s : Held} (n : ℕ) (x : List ℕ)
    → Placed stream base p l lo s
    → sizeof base s.seq + s.n ≤ p + length l
    → Placed stream base (p + n) (drop n l ++ x) lo s
Placed-moved {base = base} {p = p} {l = l} {s = s} n x a h = record {
  seq_in = a.seq_in;
  above = a.above;
  some_bytes = a.some_bytes;
  staged = λ q.
      ap (λ k. take s.n (drop k (drop n l ++ x))) {x = sizeof base s.seq - (p + n)}
        {y = sizeof base s.seq - p - n} (omega arith)
      ∙ window_moved l x n (sizeof base s.seq - p) s.n (omega arith) (omega arith)
      ∙ a.staged (omega arith);
}

-- Moving the line on by `n` places, whatever comes in at its end, keeps all that is held.
pub Chain-moved :
    (stream : Value → ℕ) (base : Value) (p : ℕ) (l : List ℕ) (hi lo : ℕ) (held : List Held) (n : ℕ)
    (x : List ℕ)
    → hi ≤ p + length l
    → Chain stream base p l hi lo held
    → Chain stream base (p + n) (drop n l ++ x) hi lo held
unfolding Chain
Chain-moved stream base p l hi lo [] n x h c = c
Chain-moved stream base p l hi lo (s ∷ ss) n x h (a, c) = (
  Placed-moved n x a (omega (arith, Chain-le stream base p l hi (sizeof base s.seq + s.n) ss c)),
  Chain-moved stream base p l hi (sizeof base s.seq + s.n) ss n x h c,
)

-- What a reassembly holds, of a stream from `base` on, in the free region of a ring.
abbrev pub Holds : (Value → ℕ) → Value → Ring → Reassembly → Type 0
Holds stream base rx r = Chain stream base 0 (line rx) (free rx) 0 r.held
