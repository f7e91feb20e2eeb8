-- ===== src/Internal/Ring/Discard.antt =====
-- internal/ring.go: ReadDiscard takes the oldest bytes and leaves the rest, and what is staged behind
-- the write position, alone.
use lneto.Base.{
  ℕ, ◌+◌, ◌-◌, ◌≤◌, ◌<◌, ◌≡◌, refl, sym, ap, ap₂, ◌∙◌, subst, ◌≢◌, inl, inr, none, some, arith, ltb,
  ◌==◌, if◌then◌else◌, Bool-cases, ==_iff, ltb→lt, length, drop, drop-drop, rotate, rotate_all,
}
use lneto.Internal.Ring.{
  invalid_discard, discard_exceeds, Ring, size, free, buffered, emptied, read_discard,
}
use lneto.Internal.Ring.Line.{
  IsValid, line, contents, line_stop, line_off, free_empty, free-le, contents_lem, length-contents,
}

pub record Dropped (r : Ring) (n : ℕ) (r' : Ring) : Type 0 where
  pub valid : IsValid r'
  pub dropped : contents r' ≡ drop n (contents r)
  pub free_more : free r' ≡ free r + n
  pub same_size : size r' ≡ size r
  pub same_line : line r' ≡ line r

pub buffered_pos : {r : Ring} → IsValid r → 0 < buffered r → r.stop ≢ 0
unfolding buffered free size
buffered_pos {r} v h = ground arith

pub line_moved_off : (r : Ring) (off' : ℕ) → r.stop ≢ 0 → line (record r { off = off' }) ≡ line r
line_moved_off r off' h = line_stop (record r { off = off' }) h ∙ sym (line_stop r h)

pub line-emptied : (r : Ring) → r.stop ≢ 0 → line (emptied r) ≡ line r
unfolding emptied size
line-emptied r h =
    line_off (record r { off = if r.stop == length r.buf then 0 else r.stop; stop = 0 }) refl
    ∙ elim (Bool-cases (r.stop == length r.buf)) [
      | inl e ↦ rw e (
          sym (rotate_all r.buf)
          ∙ ap (λ n. rotate n r.buf) (sym ((==_iff r.stop (length r.buf)).0 e)))
      | inr n ↦ rw n refl
    ]
    ∙ sym (line_stop r h)

pub dropped_lem :
    {r r' : Ring} (n : ℕ)
    → IsValid r
    → IsValid r'
    → line r' ≡ line r
    → free r' ≡ free r + n
    → size r' ≡ size r
    → Dropped r n r'
dropped_lem {r} {r'} n v v' l f s = record {
  valid = v';
  dropped =
      sym (contents_lem v')
      ∙ ap₂ drop f l
      ∙ sym (drop-drop n (free r) (line r))
      ∙ ap (drop n) (contents_lem v);
  free_more = f;
  same_size = s;
  same_line = l;
}

pub emptied-Dropped : {r : Ring} → IsValid r → 0 < buffered r → Dropped r (buffered r) (emptied r)
unfolding emptied size
emptied-Dropped {r} v h =
    dropped_lem (buffered r) v (ground arith)
      (unfold emptied size in line-emptied r (buffered_pos v h))
      (free_empty (record r { off = if r.stop == length r.buf then 0 else r.stop; stop = 0 }) refl
        ∙ omega (arith, (length-contents v).1, free-le v, size_lem r))
      refl
  where
    size_lem : (q : Ring) → size q ≡ length q.buf
    size_lem q = refl

-- The read position after `n` of the readable bytes, fewer than all.
pub free_moved :
    {r : Ring} (n : ℕ)
    → IsValid r
    → 0 < n
    → n < buffered r
    → (n + r.off ≤ length r.buf → free (record r { off = r.off + n }) ≡ free r + n)
      × (length r.buf < n + r.off
          → free (record r { off = n - (length r.buf - r.off) }) ≡ free r + n)
      × (n + r.off ≡ length r.buf → free (record r { off = 0 }) ≡ free r + n)
unfolding buffered free size
free_moved {r} n v p q = ground arith

pub moved-Dropped :
    {r : Ring} (n off' : ℕ)
    → IsValid r
    → 0 < n
    → n < buffered r
    → off' ≤ length r.buf
    → free (record r { off = off' }) ≡ free r + n
    → Dropped r n (record r { off = off' })
unfolding size
moved-Dropped {r} n off' v p q o f =
    dropped_lem n v (record { off_in = o; stop_in = v.stop_in })
      (line_moved_off r off' (buffered_pos v (omega arith))) f refl

-- The ring after `ReadDiscard` of `n` readable bytes.
unfoldable pub after_discard : Ring → ℕ → Ring
after_discard r n =
    if n == buffered r
    then emptied r
    else if ltb (length r.buf) (n + r.off)
    then record r { off = n - (length r.buf - r.off) }
    else record r { off = r.off + n }

pub after_discard-Dropped :
    {r : Ring} (n : ℕ) → IsValid r → 0 < n → n ≤ buffered r → Dropped r n (after_discard r n)
unfolding after_discard
after_discard-Dropped {r} n v p q = elim (Bool-cases (n == buffered r)) [
  | inl e ↦
      let e' = (==_iff n (buffered r)).0 e in
      rw e (subst (λ k. Dropped r k (emptied r)) (sym e') (emptied-Dropped v (omega arith)))
  | inr ne ↦ elim (Bool-cases (ltb (length r.buf) (n + r.off))) [
    | inl w ↦
        rw (ne, w)
          (moved-Dropped n (n - (length r.buf - r.off)) v p (ground arith)
            (omega (arith, (length-contents v).1, size_lem r))
            ((free_moved n v p (ground arith)).1 (ltb→lt (length r.buf) (n + r.off) w)))
    | inr w ↦
        rw (ne, w)
          (moved-Dropped n (r.off + n) v p (ground arith) (ground arith)
            ((free_moved n v p (ground arith)).0 (ground arith)))
  ]
]
  where
    size_lem : (s : Ring) → size s ≡ length s.buf
    size_lem s = unfold size in refl

pub discard_ok :
    (r : Ring) (n : ℕ) → 0 < n → n ≤ buffered r → read_discard r n ≡ (after_discard r n, none)
unfolding read_discard after_discard size
discard_ok r n p q = ground arith

-- `ReadDiscard` of no byte, or of more bytes than can be read, is an error that changes nothing;
-- otherwise exactly the `n` oldest bytes are gone, and what is behind the write position is as it
-- was.
pub read_discard-contents :
    {r : Ring} (n : ℕ)
    → IsValid r
    → (n ≡ 0 → read_discard r n ≡ (r, some invalid_discard))
      × (buffered r < n → read_discard r n ≡ (r, some discard_exceeds))
      × (0 < n → n ≤ buffered r → (r' : Ring) × (read_discard r n ≡ (r', none)) × Dropped r n r')
unfolding read_discard
read_discard-contents {r} n v = (
  (λ e. ground arith),
  (λ h. ground arith),
  λ p q. (after_discard r n, discard_ok r n p q, after_discard-Dropped n v p q),
)
