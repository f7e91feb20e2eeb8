-- ===== src/Internal/Ring/Read.antt =====
-- internal/ring.go: Read takes the oldest bytes and leaves the rest, and what is
-- staged behind the write position, alone.
use lneto.Base.{
  ℕ, ◌+◌, ◌-◌, ◌≤◌, ◌<◌, min, ◌≡◌, refl, sym, ap, subst, inl, inr, false, Option, none, some, List,
  [], ◌++◌, append-nil, arith, ltb, ◌==◌, if◌then◌else◌, Bool-cases, ==_iff, ltb→lt, length, take,
  drop, length-take, take-append, take_all, ran,
}
use lneto.Internal.Ring.{
  Error, eof, Ring, size, is_empty, free, buffered, emptied, add_off, read_bytes, on_read_end,
  finish_read, read,
}
use lneto.Internal.Ring.Line.{IsValid, contents, length-contents}
use lneto.Internal.Ring.Discard.{
  Dropped, buffered_pos, emptied-Dropped, free_moved, moved-Dropped, after_discard,
  after_discard-Dropped,
}

-- The ring after `Read` of `n` readable bytes.
unfoldable pub after_read : Ring → ℕ → Ring
after_read r n =
    if n == buffered r
    then emptied r
    else if n + r.off == length r.buf
    then record r { off = 0 }
    else after_discard r n

pub end_met :
    {r : Ring} (n : ℕ)
    → IsValid r
    → 0 < n
    → n ≤ buffered r
    → (add_off r r.off n == r.stop) ≡ (n == buffered r)
unfolding add_off buffered free size
end_met {r} n v p q = ground arith

on_read_end_ok :
    {r : Ring} (n : ℕ) → IsValid r → 0 < n → n ≤ buffered r → on_read_end r n ≡ ran (after_read r n)
unfolding on_read_end after_read after_discard add_off size
on_read_end_ok {r} n v p q =
    rw (end_met n v p q, on_read_end) (ground (arith, (length-contents v).1))

pub after_read-Dropped :
    {r : Ring} (n : ℕ) → IsValid r → 0 < n → n ≤ buffered r → Dropped r n (after_read r n)
unfolding after_read
after_read-Dropped {r} n v p q = elim (Bool-cases (n == buffered r)) [
  | inl e ↦
      let e' = (==_iff n (buffered r)).0 e in
      rw e (subst (λ k. Dropped r k (emptied r)) (sym e') (emptied-Dropped v (omega arith)))
  | inr ne ↦ elim (Bool-cases (n + r.off == length r.buf)) [
    | inl w ↦
        rw (ne, w)
          (moved-Dropped n 0 v p (ground arith) (omega arith)
            ((free_moved n v p (ground arith)).2 ((==_iff (n + r.off) (length r.buf)).0 w)))
    | inr w ↦ rw (ne, w) (after_discard-Dropped n v p q)
  ]
]

abbrev got : List ℕ → List ℕ × Option Error
got bytes = (bytes, none)

-- The two copies of `read` take from the concatenation.
two_reads :
    (n : ℕ) (xs ys : List ℕ)
    → (if ltb (length (take n xs)) n
        then got (take n xs ++ take (n - length (take n xs)) ys)
        else got (take n xs))
      ≡ got (take n (xs ++ ys))
two_reads n xs ys = elim (Bool-cases (ltb (length xs) n)) [
  | inl h ↦
      ground (arith, ltb→lt (length xs) n h, take-append n xs ys, length-take n xs, take_all n xs)
  | inr h ↦ ground (arith, take-append n xs ys, length-take n xs, append-nil (take n xs), none_left)
]
  where
    none_left : ltb (length xs) n ≡ false → take (n - length xs) ys ≡ []
    none_left h = let e : n - length xs ≡ 0 = ground arith in ap (λ k. take k ys) e

read_bytes-contents :
    {r : Ring} (n : ℕ)
    → IsValid r
    → 0 < n
    → 0 < buffered r
    → read_bytes r n ≡ (take n (contents r), none)
unfolding read_bytes contents is_empty
read_bytes-contents {r} n v p q =
    ground (arith, buffered_pos v q, two_reads n (drop r.off r.buf) (take r.stop r.buf))

empty_stop : {r : Ring} → IsValid r → buffered r ≡ 0 → r.stop ≡ 0
unfolding buffered free size
empty_stop {r} v h = ground arith

read-none : (r : Ring) → read r 0 ≡ ran ([], none, r)
unfolding read read_bytes
read-none r = refl

read_eof : (r : Ring) (n : ℕ) → 0 < n → r.stop ≡ 0 → read r n ≡ ran ([], some eof, r)
unfolding read read_bytes is_empty
read_eof r n p h = ground arith

pub read_ok :
    {r : Ring} (n : ℕ)
    → IsValid r
    → 0 < n
    → 0 < buffered r
    → read r n ≡ ran (take n (contents r), none, after_read r (min n (buffered r)))
unfolding read finish_read
read_ok {r} n v p q =
    let e : length (take n (contents r)) ≡ min n (buffered r) =
      omega (arith, length-take n (contents r), (length-contents v).0) in
    rw (read_bytes-contents n v p q, read)
      (ground (
        arith,
        e,
        on_read_end_ok (min n (buffered r)) v (omega arith) (omega arith),
        ap (on_read_end r) e,
      ))

-- `Read` into a slice of `n` bytes never panics on a valid ring: into no byte it does nothing, from
-- an empty ring it returns io.EOF and changes nothing; otherwise it returns the oldest bytes, `n` or
-- as many as there are, and exactly those are gone from the ring, while what is staged behind the
-- write position is as it was.
pub read-contents :
    {r : Ring} (n : ℕ)
    → IsValid r
    → (n ≡ 0 → read r n ≡ ran ([], none, r))
      × (0 < n → buffered r ≡ 0 → read r n ≡ ran ([], some eof, r))
      × (0 < n
          → 0 < buffered r
          → (r' : Ring) × (read r n ≡ ran (take n (contents r), none, r'))
            × Dropped r (min n (buffered r)) r')
read-contents {r} n v = (
  (λ e. rw e (read-none r)),
  (λ p h. read_eof r n p (empty_stop v h)),
  λ p q. (
    after_read r (min n (buffered r)),
    read_ok n v p q,
    after_read-Dropped (min n (buffered r)) v (omega arith) (omega arith),
  ),
)
