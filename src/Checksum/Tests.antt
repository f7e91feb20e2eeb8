-- ===== src/Checksum/Tests.antt =====
-- crc.go at concrete inputs.
use lneto.Base.{
  ℕ, ◌+◌, ◌-◌, ◌*◌, ◌/◌, ◌%◌, ◌^◌, ◌≡◌, refl, List, [], ◌∷◌, ◌++◌, arith, ran, panicked,
}
use lneto.Checksum.{payload_sum16, never_zero_sum, write_even, add_uint32}
use lneto.Checksum.Folds.{IsBytes, ones_sum, payload_sum16-ones_sum}
use lneto.Checksum.Field.{payload_sum16-field}

abbrev three_bytes : List ℕ
three_bytes = 255 ∷ 255 ∷ 1 ∷ []

abbrev header_start : List ℕ
header_start = 69 ∷ 0 ∷ 0 ∷ 28 ∷ []

odd_write : write_even (record { sum = 0 }) three_bytes ≡ panicked
unfolding write_even
odd_write = refl

pseudo_header : add_uint32 (record { sum = 1 }) (10 * 2 ^ 24 + 7) ≡ record { sum = 2568 }
unfolding add_uint32
pseudo_header = refl

payload_sum16-ones_sum_example :
    payload_sum16 (record { sum = 0 }) three_bytes ≡ ran (2 ^ 16 - 1 - ones_sum 0 three_bytes)
unfolding IsBytes
payload_sum16-ones_sum_example =
    payload_sum16-ones_sum three_bytes (omega arith, (omega arith, (omega arith, omega arith)))
      (omega arith)

payload_sum16-field_example :
    (v : ℕ) × (payload_sum16 (record { sum = 6 }) (header_start ++ (0 ∷ 0 ∷ three_bytes)) ≡ ran v)
    × (payload_sum16 (record { sum = 6 }) (header_start ++ (v / 2 ^ 8 ∷ v % 2 ^ 8 ∷ three_bytes))
        ≡ ran 0)
    × (let w = never_zero_sum v in
        payload_sum16 (record { sum = 6 }) (header_start ++ (w / 2 ^ 8 ∷ w % 2 ^ 8 ∷ three_bytes))
        ≡ ran 0)
unfolding IsBytes
payload_sum16-field_example =
    payload_sum16-field 6 header_start three_bytes (omega arith)
      (omega arith, (omega arith, (omega arith, (omega arith, omega arith))))
      (omega arith, (omega arith, (omega arith, omega arith))) (omega arith)
