-- ===== src/Internal/Ring/Stage.antt =====
-- internal/ring.go: PeekWrite stages bytes ahead of the write position, and Commit makes them
-- readable.
use lneto.Base.{
  ℕ, ◌+◌, ◌-◌, ◌≤◌, ◌<◌, ◌≡◌, refl, sym, ap, ap₂, ◌∙◌, ◌⊎◌, inl, inr, true, false, none, List, ◌++◌,
  append_assoc, arith, leb, if◌then◌else◌, length, take, drop, length-take, drop-drop, take_at,
  drop_at, drop_past, write_at, rotate, ran,
}
use lneto.Internal.Ring.{Ring, size, free, write_start, write, peek_write, commit}
use lneto.Internal.Ring.Line.{IsValid, line, contents, free-le, contents_lem, length-line}
use lneto.Internal.Ring.Round.{
  round_copy, rotate-round_copy_after, rotate-round_copy_before, length-round_copy,
}
use lneto.Internal.Ring.Write.{
  turn, line-turn, turn_le, advance, advance_le, line_advanced, free_advanced, contents_grown,
  write-contents, Appended,
}

pub drop-write_at :
    (n i : ℕ) (xs w : List ℕ)
    → i ≤ length xs
    → i + length w ≤ n
    → drop n (write_at xs i w) ≡ drop n xs
unfolding write_at
drop-write_at n i xs w hi h =
    let m = n - (i + length w) in
    drop_past {n = n} (n - i) (take i xs) (w ++ drop (i + length w) xs)
      (omega (arith, length-take i xs))
    ∙ drop_past {n = n - i} m w (drop (i + length w) xs) (omega arith)
    ∙ drop-drop m (i + length w) xs
    ∙ ap (λ k. drop k xs) {x = i + length w + m} {y = n} (omega arith)

-- Bytes staged at an offset: nothing that can be read changes.
pub record Staged (r : Ring) (b : List ℕ) (o : ℕ) (r' : Ring) : Type 0 where
  pub valid : IsValid r'
  pub line_staged : line r' ≡ write_at (line r) o b
  pub same_contents : contents r' ≡ contents r
  pub same_free : free r' ≡ free r
  pub same_size : size r' ≡ size r

peek_ring : Ring → List ℕ → ℕ → Ring
peek_ring r b at = record r { buf = round_copy r.buf at b }

peek_at : Ring → ℕ → ℕ
peek_at r o = let at = write_start r + o in if leb (length r.buf) at then at - length r.buf else at

peek_write_ok :
    (r : Ring) (b : List ℕ) (o : ℕ)
    → o + length b ≤ free r
    → peek_write r b o ≡ (peek_ring r b (peek_at r o), true)
unfolding peek_write peek_ring peek_at round_copy size
peek_write_ok r b o h = ground arith

peek_at_cases :
    {r : Ring} (o : ℕ)
    → IsValid r
    → o ≤ free r
    → ((peek_at r o ≡ turn r + o) × (peek_at r o ≤ length r.buf))
      ⊎ (peek_at r o + length r.buf ≡ turn r + o)
unfolding peek_at write_start size free
peek_at_cases {r} o v h = ground arith

peek_at_le : {r : Ring} (o : ℕ) → IsValid r → o ≤ free r → peek_at r o ≤ length r.buf
peek_at_le {r} o v h = elim (peek_at_cases o v h) [
  | inl (e, l) ↦ l
  | inr e ↦ omega (arith, turn_le v, free-le v)
]

peek_rotate :
    {r : Ring} (b : List ℕ) (o : ℕ)
    → IsValid r
    → o + length b ≤ free r
    → rotate (turn r) (round_copy r.buf (peek_at r o) b) ≡ write_at (rotate (turn r) r.buf) o b
peek_rotate {r} b o v h = elim (peek_at_cases o v (omega arith)) [
  | inl (e, l) ↦
      rotate-round_copy_after (turn r) o (peek_at r o) r.buf b e l (omega (arith, free-le v))
  | inr e ↦
      rotate-round_copy_before (turn r) o (peek_at r o) r.buf b e (turn_le v)
        (omega (arith, free-le v))
]

same_free_lem :
    (r : Ring) (buf' : List ℕ)
    → length buf' ≡ length r.buf
    → free (record r { buf = buf' }) ≡ free r
unfolding free size
same_free_lem r buf' e = rw e refl

peeked-Staged :
    {r : Ring} (b : List ℕ) (o : ℕ)
    → IsValid r
    → o + length b ≤ free r
    → Staged r b o (peek_ring r b (peek_at r o))
unfolding peek_ring size
peeked-Staged {r} b o v h =
    let buf' = round_copy r.buf (peek_at r o) b in
    let r' = record r { buf = buf' } in
    let same : length buf' ≡ length r.buf =
      length-round_copy r.buf (peek_at r o) b (peek_at_le o v (omega arith))
        (omega (arith, free-le v)) in
    let ok : IsValid r' = record {
      off_in = omega (arith, v.off_in);
      stop_in = omega (arith, v.stop_in);
    } in
    let l : line r' ≡ write_at (line r) o b =
      line-turn r' ∙ peek_rotate b o v h ∙ ap (λ x. write_at x o b) (sym (line-turn r)) in
    let f = same_free_lem r buf' same in
    record {
      valid = ok;
      line_staged = l;
      same_contents =
          sym (contents_lem ok)
          ∙ ap₂ drop f l
          ∙ drop-write_at (free r) o (line r) b (omega (arith, free-le v, length-line v)) h
          ∙ contents_lem v;
      same_free = f;
      same_size = same;
    }

-- `PeekWrite` of bytes that fit, with their offset, into the free space reports true, and leaves
-- readable bytes, free space and size as they were; on others it reports false and changes nothing.
pub peek_write-Staged :
    {r : Ring} (b : List ℕ) (o : ℕ)
    → IsValid r
    → (o + length b ≤ free r → (r' : Ring) × (peek_write r b o ≡ (r', true)) × Staged r b o r')
      × (free r < o + length b → peek_write r b o ≡ (r, false))
unfolding peek_write
peek_write-Staged {r} b o v = (
  (λ h. (peek_ring r b (peek_at r o), peek_write_ok r b o h, peeked-Staged b o v h)),
  λ h. ground arith,
)

committed : Ring → ℕ → Ring
committed r n = record r { stop = advance (length r.buf) (turn r) n }

commit_ok : (r : Ring) (n : ℕ) → 0 < n → n ≤ free r → commit r n ≡ (committed r n, none)
unfolding commit committed size
commit_ok r n p q = ground arith

committed_lem :
    {r : Ring} (n : ℕ)
    → IsValid r
    → 0 < n
    → n ≤ free r
    → Appended r (take n (line r)) (committed r n)
unfolding committed size
committed_lem {r} n v p q =
    let b = take n (line r) in
    let e : length b ≡ n = omega (arith, length-take n (line r), length-line v, free-le v) in
    let ok : IsValid (record r { stop = advance (length r.buf) (turn r) n }) = record {
      off_in = v.off_in;
      stop_in = (advance_le (length r.buf) (turn r) n (turn_le v) p (omega (arith, free-le v))).0;
    } in
    let f = free_advanced r.buf n v refl p q in
    let l =
      line_advanced r.buf r.off (turn r) n (length r.buf) refl (turn_le v) p
        (omega (arith, free-le v))
      ∙ ap (λ x. drop n x ++ take n x) (sym (line-turn r))
      ∙ ap (λ k. drop k (line r) ++ b) (sym e) in
    record {
      valid = ok;
      appended = contents_grown b v ok l (omega arith);
      free_less = omega arith;
      same_size = refl;
      same_off = refl;
      line_moved = l;
    }

-- `Commit` appends the first `n` bytes past the write position to the readable bytes.
pub commit-contents :
    {r : Ring} (n : ℕ)
    → IsValid r
    → 0 < n
    → n ≤ free r
    → (r' : Ring) × (commit r n ≡ (r', none)) × Appended r (take n (line r)) r'
commit-contents {r} n v p q = (committed r n, commit_ok r n p q, committed_lem n v p q)

write_at_front :
    (xs b : List ℕ) (o : ℕ) (c : List ℕ)
    → o ≤ length xs
    → length c ≡ o
    → take (length b) (drop o (write_at xs o b) ++ c) ≡ b
unfolding write_at
write_at_front xs b o c h hc =
    ap (λ l. take (length b) (l ++ c))
      (drop_at {n = o} (take o xs) (b ++ drop (o + length b) xs) (omega (arith, length-take o xs)))
    ∙ ap (take (length b)) (append_assoc b (drop (o + length b) xs) c)
    ∙ take_at b (drop (o + length b) xs ++ c) refl

-- The way out-of-order data reaches the reader: `b` is staged behind a gap, `a` fills the gap, and
-- `Commit` of as many bytes as `b` has makes `a` and then `b` readable, in that order.
pub stage-write-commit :
    {r : Ring} (a b : List ℕ)
    → IsValid r
    → 0 < length a
    → 0 < length b
    → length a + length b ≤ free r
    → (r1 : Ring) × (r2 : Ring) × (r3 : Ring) × (peek_write r b (length a) ≡ (r1, true))
      × (write r1 a ≡ ran (r2, length a, none))
      × (commit r2 (length b) ≡ (r3, none))
      × IsValid r3
      × (contents r3 ≡ contents r ++ (a ++ b))
      × (free r3 + (length a + length b) ≡ free r)
stage-write-commit {r} a b v pa pb h =
    let (r1, e1, s) = (peek_write-Staged b (length a) v).0 h in
    let (r2, e2, w) = (write-contents a s.valid).2 pa (omega (arith, s.same_free)) in
    let (r3, e3, c) =
      commit-contents (length b) w.valid pb (omega (arith, s.same_free, w.free_less)) in
    let front : take (length b) (line r2) ≡ b =
      ap (take (length b)) (w.line_moved ∙ ap (λ l. drop (length a) l ++ a) s.line_staged)
      ∙ write_at_front (line r) b (length a) a (omega (arith, free-le v, length-line v)) refl in
    (
      r1,
      r2,
      r3,
      e1,
      e2,
      e3,
      c.valid,
      c.appended
          ∙ ap₂ ◌++◌ (w.appended ∙ ap (λ l. l ++ a) s.same_contents) front
          ∙ append_assoc (contents r) a b,
      omega (arith, c.free_less, w.free_less, s.same_free, ap length front),
    )
