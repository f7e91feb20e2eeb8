-- ===== src/Base/Slices.antt =====
-- Go slice expressions and `copy` on lists, and a buffer turned round at an index.
use Prim.Native.Nat.{ℕ, zero, suc, ◌+◌, ◌-◌, ◌≤◌, min}
use mathlib.Core.Path.{◌≡◌, refl, sym, ap, ap₂, ◌∙◌}
use mathlib.Core.List.{List, [], ◌∷◌, ◌++◌, append-nil}
use native.Mathlib.Omega.{arith}
use lneto.Base.Lists.{length, take, drop, length-append, length-take, length-drop, take-append-drop}

module _ {ℓ} {A : Type ℓ} where
  pub drop-nil : (n : ℕ) → drop {A = A} n [] ≡ []
  drop-nil zero = refl
  drop-nil (suc n) = refl

  pub take-nil : (n : ℕ) → take {A = A} n [] ≡ []
  take-nil zero = refl
  take-nil (suc n) = refl

module _ {ℓ} {A : Type ℓ} where
  pub drop-append :
      (n : ℕ) (xs ys : List A) → drop n (xs ++ ys) ≡ drop n xs ++ drop (n - length xs) ys
  drop-append zero xs ys = ap (λ k. xs ++ drop k ys) {x = 0} {y = 0 - length xs} (omega arith)
  drop-append (suc n) [] ys = ap (λ k. drop k ys) {x = suc n} {y = suc n - 0} (omega arith)
  drop-append (suc n) (x ∷ xs) ys =
      drop-append n xs ys
      ∙ ap (λ k. drop n xs ++ drop k ys) {x = n - length xs} {y = suc n - suc (length xs)}
          (omega arith)

  pub take-append :
      (n : ℕ) (xs ys : List A) → take n (xs ++ ys) ≡ take n xs ++ take (n - length xs) ys
  take-append zero xs ys = ap (λ k. take k ys) {x = 0} {y = 0 - length xs} (omega arith)
  take-append (suc n) [] ys = ap (λ k. take k ys) {x = suc n} {y = suc n - 0} (omega arith)
  take-append (suc n) (x ∷ xs) ys =
      ap (λ l. x ∷ l)
        (take-append n xs ys
          ∙ ap (λ k. take n xs ++ take k ys) {x = n - length xs} {y = suc n - suc (length xs)}
              (omega arith))

  pub drop-drop : (m n : ℕ) (xs : List A) → drop m (drop n xs) ≡ drop (n + m) xs
  drop-drop m zero xs = ap (λ k. drop k xs) (omega arith)
  drop-drop m (suc n) [] = drop-nil m ∙ sym (drop-nil (suc n + m))
  drop-drop m (suc n) (x ∷ xs) =
      drop-drop m n xs ∙ ap (λ k. drop k (x ∷ xs)) {x = suc (n + m)} {y = suc n + m} (omega arith)

  pub take-take : (m n : ℕ) (xs : List A) → take m (take n xs) ≡ take (min m n) xs
  take-take zero n xs = ap (λ k. take k xs) {x = 0} {y = min 0 n} (omega arith)
  take-take (suc m) zero xs = ap (λ k. take k xs) {x = 0} {y = min (suc m) 0} (omega arith)
  take-take (suc m) (suc n) [] = sym (take-nil (min (suc m) (suc n)))
  take-take (suc m) (suc n) (x ∷ xs) =
      ap (λ l. x ∷ l) (take-take m n xs)
      ∙ ap (λ k. take k (x ∷ xs)) {x = suc (min m n)} {y = min (suc m) (suc n)} (omega arith)

  pub drop-take : (m n : ℕ) (xs : List A) → drop m (take (m + n) xs) ≡ take n (drop m xs)
  drop-take zero n xs = ap (λ k. take k xs) (omega arith)
  drop-take (suc m) n [] = ap (drop (suc m)) (take-nil (suc m + n)) ∙ sym (take-nil n)
  drop-take (suc m) n (x ∷ xs) =
      ap (λ k. drop (suc m) (take k (x ∷ xs))) {x = suc m + n} {y = suc (m + n)} (omega arith)
      ∙ drop-take m n xs

  pub take_all : (n : ℕ) (xs : List A) → length xs ≤ n → take n xs ≡ xs
  take_all zero [] h = refl
  take_all zero (x ∷ xs) h = absurd (omega arith)
  take_all (suc n) [] h = refl
  take_all (suc n) (x ∷ xs) h = ap (λ l. x ∷ l) (take_all n xs (omega arith))

  pub drop_all : (n : ℕ) (xs : List A) → length xs ≤ n → drop n xs ≡ []
  drop_all zero [] h = refl
  drop_all zero (x ∷ xs) h = absurd (omega arith)
  drop_all (suc n) [] h = refl
  drop_all (suc n) (x ∷ xs) h = drop_all n xs (omega arith)

  -- `copy(buf[i:], b)` where all of `b` fits.
  unfoldable pub write_at : List A → ℕ → List A → List A
  write_at xs i b = take i xs ++ (b ++ drop (i + length b) xs)

  -- The buffer turned round so that index `s` comes first.
  unfoldable pub rotate : ℕ → List A → List A
  rotate s xs = drop s xs ++ take s xs

module _ {ℓ} {A : Type ℓ} where
  pub take_at : {n : ℕ} (a x : List A) → n ≡ length a → take n (a ++ x) ≡ a
  take_at {n} a x h =
      take-append n a x
      ∙ ap₂ ◌++◌ (take_all n a (omega arith))
          (ap (λ k. take k x) {x = n - length a} {y = 0} (omega arith))
      ∙ append-nil a

  pub drop_at : {n : ℕ} (a x : List A) → n ≡ length a → drop n (a ++ x) ≡ x
  drop_at {n} a x h =
      drop-append n a x
      ∙ ap₂ ◌++◌ (drop_all n a (omega arith))
          (ap (λ k. drop k x) {x = n - length a} {y = 0} (omega arith))

  pub drop_past : {n : ℕ} (m : ℕ) (a x : List A) → n ≡ length a + m → drop n (a ++ x) ≡ drop m x
  drop_past {n} m a x h =
      drop-append n a x
      ∙ ap₂ ◌++◌ (drop_all n a (omega arith))
          (ap (λ k. drop k x) {x = n - length a} {y = m} (omega arith))

  pub take_past :
      {n : ℕ} (m : ℕ) (a x : List A) → n ≡ length a + m → take n (a ++ x) ≡ a ++ take m x
  take_past {n} m a x h =
      take-append n a x
      ∙ ap₂ ◌++◌ (take_all n a (omega arith))
          (ap (λ k. take k x) {x = n - length a} {y = m} (omega arith))

  -- A list cut at two places.
  pub split_at : (i n : ℕ) (xs : List A) → take i xs ++ (take n (drop i xs) ++ drop (i + n) xs) ≡ xs
  split_at i n xs = rw (← drop-drop n i xs, take-append-drop n (drop i xs)) (take-append-drop i xs)

  -- Writing over the middle part of a list.
  pub write_at_middle :
      {i : ℕ} (a c d w : List A)
      → i ≡ length a
      → length w ≡ length c
      → write_at (a ++ (c ++ d)) i w ≡ a ++ (w ++ d)
  unfolding write_at
  write_at_middle {i} a c d w hi hw = rw (
    take_at a (c ++ d) hi,
    drop_past {n = i + length w} (length w) a (c ++ d) (omega arith),
    drop_at c d hw,
  )

  pub length-write_at :
      (xs : List A) (i : ℕ) (w : List A)
      → i + length w ≤ length xs
      → length (write_at xs i w) ≡ length xs
  unfolding write_at
  length-write_at xs i w h = omega (
    arith,
    length-append (take i xs) (w ++ drop (i + length w) xs),
    length-append w (drop (i + length w) xs),
    length-take i xs,
    length-drop (i + length w) xs,
  )

  pub length-rotate : (s : ℕ) (xs : List A) → s ≤ length xs → length (rotate s xs) ≡ length xs
  unfolding rotate
  length-rotate s xs h =
      omega (arith, length-append (drop s xs) (take s xs), length-take s xs, length-drop s xs)

  pub rotate_append : {s : ℕ} (a b : List A) → s ≡ length a → rotate s (a ++ b) ≡ b ++ a
  unfolding rotate
  rotate_append a b h = rw (drop_at a b h, take_at a b h)
