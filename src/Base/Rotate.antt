-- ===== src/Base/Rotate.antt =====
-- A buffer turned round at an index: what moving the index and writing do to it.
use Prim.Native.Nat.{ℕ, ◌+◌, ◌-◌, ◌≤◌}
use mathlib.Core.Path.{◌≡◌, refl, sym, ap, ◌∙◌, subst}
use mathlib.Core.List.{List, [], ◌++◌, append-nil, append_assoc}
use native.Mathlib.Omega.{arith}
use lneto.Base.Lists.{length, take, drop, length-append, length-take, length-drop, take-append-drop}
use lneto.Base.Slices.{take_at, drop_at, split_at, write_at, write_at_middle, rotate, rotate_append}

module _ {ℓ} {A : Type ℓ} where
  -- Three parts.
  rotate_first : {s : ℕ} (a b c : List A) → s ≡ length a → rotate s (a ++ (b ++ c)) ≡ b ++ (c ++ a)
  rotate_first a b c h = rotate_append a (b ++ c) h ∙ append_assoc b c a

  rotate_second :
      {s : ℕ} (a b c : List A) → s ≡ length a + length b → rotate s (a ++ (b ++ c)) ≡ c ++ (a ++ b)
  rotate_second {s} a b c h =
      ap (rotate s) (sym (append_assoc a b c))
      ∙ rotate_append (a ++ b) c (h ∙ sym (length-append a b))

  step_parts :
      {s n : ℕ} (a b c : List A)
      → s ≡ length a
      → n ≡ length b
      → rotate (s + n) (a ++ (b ++ c))
        ≡ drop n (rotate s (a ++ (b ++ c))) ++ take n (rotate s (a ++ (b ++ c)))
  step_parts {s} {n} a b c hs hn =
      rw
        (
          rotate_first a b c hs,
          rotate_second {s = s + n} a b c (omega arith),
          drop_at b (c ++ a) hn,
          take_at b (c ++ a) hn,
        )
        (sym (append_assoc c a b))

  pub rotate_step :
      (s n : ℕ) (xs : List A)
      → s + n ≤ length xs
      → rotate (s + n) xs ≡ drop n (rotate s xs) ++ take n (rotate s xs)
  rotate_step s n xs h =
      subst (λ l. rotate (s + n) l ≡ drop n (rotate s l) ++ take n (rotate s l)) (split_at s n xs)
        (step_parts (take s xs) (take n (drop s xs)) (drop (s + n) xs)
          (omega (arith, length-take s xs))
          (omega (arith, length-take n (drop s xs), length-drop s xs)))

  wrap_parts :
      {s n k : ℕ} (a b c : List A)
      → k ≡ length a
      → s ≡ length a + length b
      → n ≡ length c + length a
      → rotate k (a ++ (b ++ c))
        ≡ drop n (rotate s (a ++ (b ++ c))) ++ take n (rotate s (a ++ (b ++ c)))
  wrap_parts {s} {n} {k} a b c hk hs hn =
      rw
        (
          rotate_first a b c hk,
          rotate_second a b c hs,
          ← append_assoc c a b,
          drop_at {n = n} (c ++ a) b (omega (arith, length-append c a)),
          take_at {n = n} (c ++ a) b (omega (arith, length-append c a)),
        )
        refl

  pub rotate_wrap :
      (s n k : ℕ) (xs : List A)
      → s ≤ length xs
      → k ≤ s
      → k + length xs ≡ s + n
      → rotate k xs ≡ drop n (rotate s xs) ++ take n (rotate s xs)
  rotate_wrap s n k xs hs hk e =
      subst (λ l. rotate k l ≡ drop n (rotate s l) ++ take n (rotate s l)) (split_at k (s - k) xs)
        (wrap_parts (take k xs) (take (s - k) (drop k xs)) (drop (k + (s - k)) xs)
          (omega (arith, length-take k xs))
          (omega (arith, length-take k xs, length-take (s - k) (drop k xs), length-drop k xs))
          (omega (arith, length-take k xs, length-drop (k + (s - k)) xs)))

  rotate_none : (xs : List A) → rotate 0 xs ≡ xs
  unfolding rotate
  rotate_none xs = append-nil xs

  pub rotate_all : (xs : List A) → rotate (length xs) xs ≡ rotate 0 xs
  rotate_all xs =
      ap (rotate (length xs)) (sym (append-nil xs))
      ∙ rotate_append xs [] refl
      ∙ sym (rotate_none xs)

  -- Writing behind the index.
  write_after_parts :
      {s o i : ℕ} (a b c d w : List A)
      → s ≡ length a
      → o ≡ length b
      → i ≡ s + o
      → length w ≡ length c
      → rotate s (write_at (a ++ (b ++ (c ++ d))) i w)
        ≡ write_at (rotate s (a ++ (b ++ (c ++ d)))) o w
  write_after_parts {s} {o} {i} a b c d w hs ho hi hw =
      ap (rotate s) (
        ap (λ l. write_at l i w) (sym (append_assoc a b (c ++ d)))
        ∙ write_at_middle (a ++ b) c d w (omega (arith, length-append a b)) hw
        ∙ append_assoc a b (w ++ d))
      ∙ rotate_append a (b ++ (w ++ d)) hs
      ∙ append_assoc b (w ++ d) a
      ∙ ap (λ l. b ++ l) (append_assoc w d a)
      ∙ sym (write_at_middle b c (d ++ a) w ho hw)
      ∙ ap (λ l. write_at (b ++ l) o w) (sym (append_assoc c d a))
      ∙ ap (λ l. write_at l o w) (sym (append_assoc b (c ++ d) a))
      ∙ ap (λ l. write_at l o w) (sym (rotate_append a (b ++ (c ++ d)) hs))

  pub rotate-write_at_after :
      (s o i : ℕ) (xs w : List A)
      → i ≡ s + o
      → i + length w ≤ length xs
      → rotate s (write_at xs i w) ≡ write_at (rotate s xs) o w
  rotate-write_at_after s o i xs w hi h =
      let b = drop s xs in
      subst (λ l. rotate s (write_at l i w) ≡ write_at (rotate s l) o w)
        (ap (λ l. take s xs ++ l) (split_at o (length w) b) ∙ take-append-drop s xs)
        (write_after_parts (take s xs) (take o b) (take (length w) (drop o b))
          (drop (o + length w) b) w (omega (arith, length-take s xs))
          (omega (arith, length-take o b, length-drop s xs)) hi
          (omega (arith, length-take (length w) (drop o b), length-drop o b, length-drop s xs)))

  -- Writing before the index.
  write_before_parts :
      {s o i : ℕ} (a c d e w : List A)
      → i ≡ length a
      → length w ≡ length c
      → s ≡ length a + length c + length d
      → o ≡ length e + length a
      → rotate s (write_at (a ++ (c ++ (d ++ e))) i w)
        ≡ write_at (rotate s (a ++ (c ++ (d ++ e)))) o w
  write_before_parts {s} {o} {i} a c d e w hi hw hs ho =
      ap (rotate s)
        (write_at_middle a c (d ++ e) w hi hw ∙ ap (λ l. a ++ l) (sym (append_assoc w d e)))
      ∙ rotate_second a (w ++ d) e (omega (arith, length-append w d))
      ∙ sym (append_assoc e a (w ++ d))
      ∙ sym (write_at_middle (e ++ a) c d w (omega (arith, length-append e a)) hw)
      ∙ ap (λ l. write_at l o w) (append_assoc e a (c ++ d))
      ∙ ap (λ l. write_at l o w)
          (sym (rotate_second a (c ++ d) e (omega (arith, length-append c d))))
      ∙ ap (λ l. write_at (rotate s (a ++ l)) o w) (append_assoc c d e)

  pub rotate-write_at_before :
      (s o i : ℕ) (xs w : List A)
      → i + length w ≤ s
      → s ≤ length xs
      → o + s ≡ length xs + i
      → rotate s (write_at xs i w) ≡ write_at (rotate s xs) o w
  rotate-write_at_before s o i xs w h hs ho =
      let m = i + length w in
      let r = drop m xs in
      subst (λ l. rotate s (write_at l i w) ≡ write_at (rotate s l) o w)
        (ap (λ l. take i xs ++ (take (length w) (drop i xs) ++ l)) (take-append-drop (s - m) r)
          ∙ split_at i (length w) xs)
        (write_before_parts (take i xs) (take (length w) (drop i xs)) (take (s - m) r)
          (drop (s - m) r) w (omega (arith, length-take i xs))
          (omega (arith, length-take (length w) (drop i xs), length-drop i xs))
          (omega (
            arith,
            length-take i xs,
            length-take (length w) (drop i xs),
            length-drop i xs,
            length-take (s - m) r,
            length-drop m xs,
          ))
          (omega (arith, length-drop (s - m) r, length-drop m xs, length-take i xs)))

  -- Two writes, the second right after the first.
  join_parts :
      {i j : ℕ} (a b c d u v : List A)
      → i ≡ length a
      → j ≡ i + length u
      → length u ≡ length b
      → length v ≡ length c
      → write_at (write_at (a ++ (b ++ (c ++ d))) i u) j v
        ≡ write_at (a ++ (b ++ (c ++ d))) i (u ++ v)
  join_parts {i} {j} a b c d u v hi hj hu hv =
      ap (λ l. write_at l j v)
        (write_at_middle a b (c ++ d) u hi hu ∙ sym (append_assoc a u (c ++ d)))
      ∙ write_at_middle (a ++ u) c d v (omega (arith, length-append a u)) hv
      ∙ append_assoc a u (v ++ d)
      ∙ ap (λ l. a ++ l) (sym (append_assoc u v d))
      ∙ sym (
          write_at_middle a (b ++ c) d (u ++ v) hi
            (omega (arith, length-append u v, length-append b c)))
      ∙ ap (λ l. write_at (a ++ l) i (u ++ v)) (append_assoc b c d)

  pub write_at-write_at :
      (i j : ℕ) (xs u v : List A)
      → j ≡ i + length u
      → j + length v ≤ length xs
      → write_at (write_at xs i u) j v ≡ write_at xs i (u ++ v)
  write_at-write_at i j xs u v hj h =
      let r = drop (i + length u) xs in
      subst (λ l. write_at (write_at l i u) j v ≡ write_at l i (u ++ v))
        (ap (λ l. take i xs ++ (take (length u) (drop i xs) ++ l)) (take-append-drop (length v) r)
          ∙ split_at i (length u) xs)
        (join_parts (take i xs) (take (length u) (drop i xs)) (take (length v) r)
          (drop (length v) r) u v (omega (arith, length-take i xs)) hj
          (omega (arith, length-take (length u) (drop i xs), length-drop i xs))
          (omega (arith, length-take (length v) r, length-drop (i + length u) xs)))
