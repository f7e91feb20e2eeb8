-- ===== src/Checksum.antt =====
-- crc.go: the checksum of RFC 791. Bytes are numbers below 256; sums are on `uint32`.
pub mod Folds
pub mod Field
mod Tests
use lneto.Base.{
  ℕ, ◌+◌, ◌-◌, ◌*◌, ◌/◌, ◌%◌, ◌^◌, List, [], ◌∷◌, ltb, ◌==◌, if◌then◌else◌, add32, length, get_or,
  take, Ran, ran, panicked,
}

pub record Crc791 : Type 0 where
  pub sum : ℕ

unfoldable pub sum16 : ℕ → ℕ
sum16 sum =
    let folded = sum % 2 ^ 16 + sum / 2 ^ 16 in 2 ^ 16 - 1 - (folded + folded / 2 ^ 16) % 2 ^ 16

-- A byte without a second one panics.
unfoldable pub sum_write_even : ℕ → List ℕ → Ran ℕ
sum_write_even sum [] = ran sum
sum_write_even sum (a ∷ []) = panicked
sum_write_even sum (a ∷ b ∷ buff) = sum_write_even (add32 sum (a * 2 ^ 8 + b)) buff

unfoldable pub write_even : Crc791 → List ℕ → Ran Crc791
unfolding sum_write_even
write_even c buff = elim (sum_write_even c.sum buff) [
  | ran sum ↦ ran (record { sum = sum })
  | panicked ↦ panicked
]

unfoldable pub add_uint16 : Crc791 → ℕ → Crc791
add_uint16 c value = record { sum = add32 c.sum value }

unfoldable pub add_uint32 : Crc791 → ℕ → Crc791
unfolding add_uint16
add_uint32 c value = add_uint16 (add_uint16 c (value / 2 ^ 16 % 2 ^ 16)) (value % 2 ^ 16)

unfoldable pub payload_sum16 : Crc791 → List ℕ → Ran ℕ
unfolding sum_write_even sum16
payload_sum16 c buff =
    let odd = length buff % 2 in
    elim (sum_write_even c.sum (take (length buff - odd) buff)) [
      | ran sum ↦ ran (
          sum16 (
            if ltb 0 odd
            then add32 sum (get_or buff (length buff - 1) 0 * 2 ^ 8 % 2 ^ 32)
            else sum))
      | panicked ↦ panicked
    ]

unfoldable pub never_zero_sum : ℕ → ℕ
never_zero_sum sum = if sum == 0 then 2 ^ 16 - 1 else sum
