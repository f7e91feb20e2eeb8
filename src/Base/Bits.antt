-- ===== src/Base/Bits.antt =====
-- `&` with a constant mask, as arithmetic.
use Prim.Native.Nat.{
  ℕ, zero, suc, ◌+◌, ◌*◌, ◌/◌, ◌%◌, ◌^◌, ◌≤◌, min, bit_and, digits, bit_and-bitwise,
}
use mathlib.Core.Path.{◌≡◌, refl, sym, ap, ◌∙◌}
use mathlib.Core.Bool.{Bool, true, false}
use mathlib.Core.List.{List, [], ◌∷◌}
use native.Mathlib.Omega.{arith}

-- A mask by its digits, the lowest first.
abbrev mask_of : List Bool → ℕ
mask_of [] = 0
mask_of (true ∷ bs) = mask_of bs * 2 + 1
mask_of (false ∷ bs) = mask_of bs * 2

abbrev picked : List Bool → ℕ → ℕ
picked [] a = 0
picked (true ∷ bs) a = picked bs (a / 2) * 2 + a % 2
picked (false ∷ bs) a = picked bs (a / 2) * 2

picked-zero : (bs : List Bool) → picked bs 0 ≡ 0
picked-zero [] = refl
picked-zero (true ∷ bs) = omega (arith, picked-zero bs)
picked-zero (false ∷ bs) = omega (arith, picked-zero bs)

masked_digits :
    (bs : List Bool) (count a : ℕ)
    → a ≤ count
    → digits (λ b. zero) min count a (mask_of bs) ≡ picked bs a
masked_digits bs zero zero h = sym (picked-zero bs)
masked_digits bs zero (suc a) h = absurd (omega arith)
masked_digits bs (suc count) zero h = sym (picked-zero bs)
masked_digits [] (suc count) (suc a) h =
    omega (arith, masked_digits [] count (suc a / 2) (omega arith))
masked_digits (true ∷ bs) (suc count) (suc a) h =
    let half : (mask_of bs * 2 + 1) / 2 ≡ mask_of bs = omega arith in
    omega (
      arith,
      ap (digits (λ b. zero) min count (suc a / 2)) half,
      masked_digits bs count (suc a / 2) (omega arith),
    )
masked_digits (false ∷ bs) (suc count) (suc a) h =
    let half : mask_of bs * 2 / 2 ≡ mask_of bs = omega arith in
    omega (
      arith,
      ap (digits (λ b. zero) min count (suc a / 2)) half,
      masked_digits bs count (suc a / 2) (omega arith),
    )

masked : (bs : List Bool) (a : ℕ) → bit_and a (mask_of bs) ≡ picked bs a
masked bs a = bit_and-bitwise a (mask_of bs) ∙ masked_digits bs a a (omega arith)

pub bit_and_one : (a : ℕ) → bit_and a 1 ≡ a % 2
bit_and_one a = masked (true ∷ []) a ∙ omega arith

pub bit_and_two : (a : ℕ) → bit_and a 2 ≡ a / 2 % 2 * 2
bit_and_two a = masked (false ∷ true ∷ []) a ∙ omega arith

pub bit_and_seven : (a : ℕ) → bit_and a 7 ≡ a % 2 ^ 3
bit_and_seven a = masked (true ∷ true ∷ true ∷ []) a ∙ omega arith

abbrev nine_ones : List Bool
nine_ones = true ∷ true ∷ true ∷ true ∷ true ∷ true ∷ true ∷ true ∷ true ∷ []

pub bit_and_511 : (a : ℕ) → bit_and a 0x1ff ≡ a % 2 ^ 9
bit_and_511 a = masked nine_ones a ∙ omega arith

pub bit_and_four : (a : ℕ) → bit_and a 4 ≡ a / 4 % 2 * 4
bit_and_four a = masked (false ∷ false ∷ true ∷ []) a ∙ omega arith

abbrev high_two : List Bool
high_two = false ∷ false ∷ false ∷ false ∷ false ∷ false ∷ true ∷ true ∷ []

pub bit_and_192 : (a : ℕ) → bit_and a 0xc0 ≡ a / 2 ^ 6 % 2 ^ 2 * 2 ^ 6
bit_and_192 a = masked high_two a ∙ omega arith
