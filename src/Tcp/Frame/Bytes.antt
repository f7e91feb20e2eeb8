-- ===== src/Tcp/Frame/Bytes.antt =====
-- tcp/frame.go: numbers in network order, in a buffer.
use lneto.Base.{
  ℕ, zero, suc, ◌+◌, ◌/◌, ◌%◌, ◌^◌, ◌<◌, ◌≡◌, refl, ap, ◌∙◌, ◌≢◌, ◌⊎◌, inl, inr, List, [], ◌∷◌,
  arith, IsU16, IsU32, length, set, get_or, length-set,
}
use lneto.Tcp.Frame.{uint16, put_uint16, uint32, put_uint32}

get_or-set_self : (xs : List ℕ) (i v d : ℕ) → i < length xs → get_or (set xs i v) i d ≡ v
get_or-set_self [] i v d h = absurd (omega arith)
get_or-set_self (x ∷ xs) zero v d h = refl
get_or-set_self (x ∷ xs) (suc i) v d h = get_or-set_self xs i v d (omega arith)

get_or-set_ne : (xs : List ℕ) (i j v d : ℕ) → i ≢ j → get_or (set xs i v) j d ≡ get_or xs j d
get_or-set_ne [] i j v d h = refl
get_or-set_ne (x ∷ xs) zero zero v d h = absurd (h refl)
get_or-set_ne (x ∷ xs) zero (suc j) v d h = refl
get_or-set_ne (x ∷ xs) (suc i) zero v d h = refl
get_or-set_ne (x ∷ xs) (suc i) (suc j) v d h = get_or-set_ne xs i j v d (λ e. h (ap suc e))

pub length-put_uint16 : (buf : List ℕ) (i v : ℕ) → length (put_uint16 buf i v) ≡ length buf
unfolding put_uint16
length-put_uint16 buf i v =
    length-set (set buf i (v / 2 ^ 8 % 2 ^ 8)) (i + 1) (v % 2 ^ 8)
    ∙ length-set buf i (v / 2 ^ 8 % 2 ^ 8)

pub uint16-put_uint16 :
    (buf : List ℕ) (i v : ℕ) → i + 1 < length buf → IsU16 v → uint16 (put_uint16 buf i v) i ≡ v
unfolding uint16 put_uint16
uint16-put_uint16 buf i v h u =
    let hi = v / 2 ^ 8 % 2 ^ 8 in
    let one = set buf i hi in
    omega (
      arith,
      get_or-set_ne one (i + 1) i (v % 2 ^ 8) 0 (λ e. omega arith),
      get_or-set_self buf i hi 0 (omega arith),
      get_or-set_self one (i + 1) (v % 2 ^ 8) 0 (omega (arith, length-set buf i hi)),
    )

-- Apart by two bytes or more.
pub uint16-put_uint16_apart :
    (buf : List ℕ) (i j v : ℕ)
    → (i + 1 < j) ⊎ (j + 1 < i)
    → uint16 (put_uint16 buf i v) j ≡ uint16 buf j
unfolding uint16 put_uint16
uint16-put_uint16_apart buf i j v a =
    let hi = v / 2 ^ 8 % 2 ^ 8 in
    let lo = v % 2 ^ 8 in
    let one = set buf i hi in
    omega (
      arith,
      get_or-set_ne one (i + 1) j lo 0 (λ e. elim a [ inl q ↦ omega arith | inr q ↦ omega arith ]),
      get_or-set_ne one (i + 1) (j + 1) lo 0
          (λ e. elim a [ inl q ↦ omega arith | inr q ↦ omega arith ]),
      get_or-set_ne buf i j hi 0 (λ e. elim a [ inl q ↦ omega arith | inr q ↦ omega arith ]),
      get_or-set_ne buf i (j + 1) hi 0 (λ e. elim a [ inl q ↦ omega arith | inr q ↦ omega arith ]),
    )

pub length-put_uint32 : (buf : List ℕ) (i v : ℕ) → length (put_uint32 buf i v) ≡ length buf
unfolding put_uint32
length-put_uint32 buf i v =
    length-put_uint16 (put_uint16 buf i (v / 2 ^ 16 % 2 ^ 16)) (i + 2) (v % 2 ^ 16)
    ∙ length-put_uint16 buf i (v / 2 ^ 16 % 2 ^ 16)

pub uint32-put_uint32 :
    (buf : List ℕ) (i v : ℕ) → i + 3 < length buf → IsU32 v → uint32 (put_uint32 buf i v) i ≡ v
unfolding uint32 put_uint32
uint32-put_uint32 buf i v h u =
    let hi = v / 2 ^ 16 % 2 ^ 16 in
    let lo = v % 2 ^ 16 in
    let one = put_uint16 buf i hi in
    omega (
      arith,
      uint16-put_uint16_apart one (i + 2) i lo (inr (omega arith)),
      uint16-put_uint16 buf i hi (omega arith) (omega arith),
      uint16-put_uint16 one (i + 2) lo (omega (arith, length-put_uint16 buf i hi)) (omega arith),
    )

pub uint16-put_uint32_apart :
    (buf : List ℕ) (i j v : ℕ)
    → (i + 3 < j) ⊎ (j + 1 < i)
    → uint16 (put_uint32 buf i v) j ≡ uint16 buf j
unfolding put_uint32
uint16-put_uint32_apart buf i j v a =
    let hi = v / 2 ^ 16 % 2 ^ 16 in
    uint16-put_uint16_apart (put_uint16 buf i hi) (i + 2) j (v % 2 ^ 16)
      (elim a [ inl q ↦ inl (omega arith) | inr q ↦ inr (omega arith) ])
    ∙ uint16-put_uint16_apart buf i j hi
        (elim a [ inl q ↦ inl (omega arith) | inr q ↦ inr (omega arith) ])
