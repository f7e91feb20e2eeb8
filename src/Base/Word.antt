-- ===== src/Base/Word.antt =====
-- Go's fixed-width integers: a value is a number below the modulus, and every sum, difference and
-- negation wraps.
use Prim.Native.Nat.{ℕ, ◌+◌, ◌-◌, ◌%◌, ◌^◌, ◌<◌, bit_and, bit_xor}
use mathlib.Core.Bool.{Bool}
use lneto.Base.Tests.{leb}

abbrev pub u8_mod : ℕ
u8_mod = 2 ^ 8

abbrev pub u16_mod : ℕ
u16_mod = 2 ^ 16

abbrev pub u32_mod : ℕ
u32_mod = 2 ^ 32

abbrev pub IsU8 : ℕ → Type 0
IsU8 n = n < u8_mod

abbrev pub IsU16 : ℕ → Type 0
IsU16 n = n < u16_mod

abbrev pub IsU32 : ℕ → Type 0
IsU32 n = n < u32_mod

abbrev pub add8 : ℕ → ℕ → ℕ
add8 a b = (a + b) % u8_mod

abbrev pub sub8 : ℕ → ℕ → ℕ
sub8 a b = (a + u8_mod - b) % u8_mod

-- An `int8` is held as its bit pattern; these are its sign test and negation.
abbrev pub neg8 : ℕ → ℕ
neg8 a = (u8_mod - a) % u8_mod

abbrev pub is_negative8 : ℕ → Bool
is_negative8 a = leb (2 ^ 7) a

abbrev pub add32 : ℕ → ℕ → ℕ
add32 a b = (a + b) % u32_mod

abbrev pub sub32 : ℕ → ℕ → ℕ
sub32 a b = (a + u32_mod - b) % u32_mod

-- `int32(a) < 0`, for the bit pattern `a`
abbrev pub is_negative32 : ℕ → Bool
is_negative32 a = leb (2 ^ 31) a

-- `a &^ b` on `uint16`
abbrev pub bit_clear16 : ℕ → ℕ → ℕ
bit_clear16 a b = bit_and a (bit_xor b (u16_mod - 1))
