-- ===== src/Internal/Ring/Round.antt =====
-- internal/ring.go: the two-part copy that Write and PeekWrite make when the bytes go round the end
-- of the buffer.
use lneto.Base.{
  ℕ, ◌+◌, ◌-◌, ◌≤◌, ◌<◌, min, ◌≡◌, refl, ap, ◌∙◌, inl, inr, List, arith, ltb, leb, if◌then◌else◌,
  Bool-cases, leb→le, length, take, drop, take-append-drop, length-take, length-drop, take_all,
  write_at, length-write_at, rotate, length-rotate, rotate-write_at_after, rotate-write_at_before,
  write_at-write_at,
}
use lneto.Internal.Ring.{copy_to}

-- The buffer after both parts.
unfoldable pub round_copy : List ℕ → ℕ → List ℕ → List ℕ
unfolding copy_to
round_copy buf at b =
    let (n, buf1) = copy_to buf at (length buf) b in
    let (n2, buf2) = copy_to buf1 0 (length buf) (drop n b) in
    if ltb n (length b) then buf2 else buf1

pub round_copy_fits :
    (buf : List ℕ) (at : ℕ) (b : List ℕ)
    → at + length b ≤ length buf
    → round_copy buf at b ≡ write_at buf at b
unfolding round_copy
round_copy_fits buf at b h =
    let e : min (length buf - at) (length b) ≡ length b = omega arith in
    rw (e, round_copy, take_all (length b) b (omega arith)) (ground arith)

round_copy_splits :
    (buf : List ℕ) (at n : ℕ) (b : List ℕ)
    → at ≤ length buf
    → n ≡ length buf - at
    → n < length b
    → length b ≤ length buf
    → round_copy buf at b ≡ write_at (write_at buf at (take n b)) 0 (drop n b)
unfolding round_copy
round_copy_splits buf at n b h hn lt le =
    let e : min (length buf - at) (length b) ≡ n = omega arith in
    let e2 : min (length buf - 0) (length (drop n b)) ≡ length (drop n b) =
      omega (arith, length-drop n b) in
    rw (e, round_copy, e2, take_all (length (drop n b)) (drop n b) (omega arith)) (ground arith)

-- Seen from `t`, the copy is one write, whether it starts behind `t` ...
pub rotate-round_copy_after :
    (t o at : ℕ) (buf b : List ℕ)
    → at ≡ t + o
    → at ≤ length buf
    → o + length b ≤ length buf
    → rotate t (round_copy buf at b) ≡ write_at (rotate t buf) o b
rotate-round_copy_after t o at buf b ha hl h =
    elim (Bool-cases (leb (at + length b) (length buf))) [
      | inl f ↦
          ap (rotate t) (round_copy_fits buf at b (leb→le (at + length b) (length buf) f))
          ∙ rotate-write_at_after t o at buf b ha (leb→le (at + length b) (length buf) f)
      | inr g ↦
          let n = length buf - at in
          let n_lt : n < length b = ground arith in
          let len1 : length (write_at buf at (take n b)) ≡ length buf =
            length-write_at buf at (take n b) (omega (arith, length-take n b)) in
          ap (rotate t) (round_copy_splits buf at n b hl refl n_lt (omega arith))
          ∙ rotate-write_at_before t (length buf - t) 0 (write_at buf at (take n b)) (drop n b)
              (omega (arith, length-drop n b)) (omega arith) (omega arith)
          ∙ ap (λ l. write_at l (length buf - t) (drop n b))
              (rotate-write_at_after t o at buf (take n b) ha (omega (arith, length-take n b)))
          ∙ write_at-write_at o (length buf - t) (rotate t buf) (take n b) (drop n b)
              (omega (arith, length-take n b))
              (omega (arith, length-drop n b, length-rotate t buf (omega arith)))
          ∙ ap (write_at (rotate t buf) o) (take-append-drop n b)
    ]

-- ... or has gone round the end of the buffer.
pub rotate-round_copy_before :
    (t o at : ℕ) (buf b : List ℕ)
    → at + length buf ≡ t + o
    → t ≤ length buf
    → o + length b ≤ length buf
    → rotate t (round_copy buf at b) ≡ write_at (rotate t buf) o b
rotate-round_copy_before t o at buf b ha ht h =
    ap (rotate t) (round_copy_fits buf at b (omega arith))
    ∙ rotate-write_at_before t o at buf b (omega arith) ht (omega arith)

pub length-round_copy :
    (buf : List ℕ) (at : ℕ) (b : List ℕ)
    → at ≤ length buf
    → length b ≤ length buf
    → length (round_copy buf at b) ≡ length buf
length-round_copy buf at b ha hb = elim (Bool-cases (leb (at + length b) (length buf))) [
  | inl f ↦
      ap length (round_copy_fits buf at b (leb→le (at + length b) (length buf) f))
      ∙ length-write_at buf at b (leb→le (at + length b) (length buf) f)
  | inr g ↦
      let n = length buf - at in
      let n_lt : n < length b = ground arith in
      let len1 : length (write_at buf at (take n b)) ≡ length buf =
        length-write_at buf at (take n b) (omega (arith, length-take n b)) in
      ap length (round_copy_splits buf at n b ha refl n_lt hb)
      ∙ length-write_at (write_at buf at (take n b)) 0 (drop n b) (omega (arith, length-drop n b))
      ∙ len1
]
