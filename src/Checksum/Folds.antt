-- ===== src/Checksum/Folds.antt =====
-- crc.go: the checksum is the one's complement of the one's complement sum of the words.
use lneto.Base.{
  ℕ, suc, ◌+◌, ◌-◌, ◌*◌, ◌/◌, ◌%◌, ◌^◌, ◌≤◌, ◌<◌, ◌≡◌, refl, ap, ◌∙◌, subst, inl, inr, List, [],
  ◌∷◌, arith, ltb, ◌==◌, if◌then◌else◌, Bool-cases, ==_iff, IsU8, add32, length, get_or, take, Ran,
  ran, panicked,
}
use lneto.Checksum.{sum16, sum_write_even, payload_sum16}

unfoldable pub IsBytes : List ℕ → Type 0
IsBytes [] = 0 ≤ 0
IsBytes (a ∷ buff) = IsU8 a × IsBytes buff

-- Addition with the carry brought round.
unfoldable pub ones_add : ℕ → ℕ → ℕ
ones_add r w = (r + w) % 2 ^ 16 + (r + w) / 2 ^ 16

-- RFC 791's sum of the 16 bit words, the last padded with a zero byte.
unfoldable pub ones_sum : ℕ → List ℕ → ℕ
unfolding ones_add
ones_sum r [] = r
ones_sum r (a ∷ []) = ones_add r (a * 2 ^ 8)
ones_sum r (a ∷ b ∷ buff) = ones_sum (ones_add r (a * 2 ^ 8 + b)) buff

-- The sum of the words as a number.
abbrev pub total : List ℕ → ℕ
total [] = 0
total (a ∷ []) = a * 2 ^ 8
total (a ∷ b ∷ buff) = (a * 2 ^ 8 + b) + total buff

-- The 16 bits that represent a sum, which are 0 only for 0.
unfoldable pub Folds : ℕ → ℕ → Type 0
Folds s r = (r < 2 ^ 16) × ((k : ℕ) × (s ≡ r + k * 65535)) × (r ≡ 0 → s ≡ 0)

pub Folds-unique : (s r r' : ℕ) → Folds s r → Folds s r' → r ≡ r'
unfolding Folds
Folds-unique s r r' (p, (k, e), z) (p', (k', e'), z') = elim (Bool-cases (r == 0)) [
  | inl y ↦ omega (arith, z ((==_iff r 0).0 y), (==_iff r 0).0 y)
  | inr n ↦ elim (Bool-cases (r' == 0)) [
    | inl y ↦ omega (arith, z' ((==_iff r' 0).0 y), (==_iff r' 0).0 y)
    | inr m ↦ ground arith
  ]
]

Folds-ones_add : (s r w : ℕ) → Folds s r → w < 2 ^ 16 → Folds (s + w) (ones_add r w)
unfolding Folds ones_add
Folds-ones_add s r w (p, (k, e), z) q =
    (omega arith, (k + (r + w) / 2 ^ 16, omega arith), λ y. omega (arith, z (omega arith)))

pub Folds-sum16 : (s : ℕ) → s < 2 ^ 32 → Folds s (2 ^ 16 - 1 - sum16 s)
unfolding Folds sum16
Folds-sum16 s h =
    let folded = s % 2 ^ 16 + s / 2 ^ 16 in
    (omega arith, (s / 2 ^ 16 + folded / 2 ^ 16, omega arith), λ y. omega arith)

pub total_bound : (buff : List ℕ) → IsBytes buff → total buff ≤ 2 ^ 15 * (length buff + 1)
unfolding IsBytes
total_bound [] b = omega arith
total_bound (a ∷ []) (p, b) = omega arith
total_bound (a ∷ c ∷ buff) (p, (q, b)) = omega (arith, total_bound buff b)

-- `PayloadSum16` by its number of odd bytes, that of its other bytes and its last byte.
abbrev summed : ℕ → List ℕ → ℕ → ℕ → ℕ → Ran ℕ
summed s buff odd even last = elim (sum_write_even s (take even buff)) [
  | ran sum ↦ ran (sum16 (if ltb 0 odd then add32 sum (last * 2 ^ 8 % 2 ^ 32) else sum))
  | panicked ↦ panicked
]

payload_sum16_step :
    (s a c : ℕ) (buff : List ℕ)
    → payload_sum16 (record { sum = s }) (a ∷ c ∷ buff)
      ≡ payload_sum16 (record { sum = add32 s (a * 2 ^ 8 + c) }) buff
unfolding payload_sum16 sum_write_even
payload_sum16_step s a c [] = refl
payload_sum16_step s a c (b ∷ buff) =
    let n = length buff in
    let odd : suc (suc (suc n)) % 2 ≡ suc n % 2 = omega arith in
    let even : suc (suc (suc n)) - suc n % 2 ≡ suc (suc (suc n - suc n % 2)) = omega arith in
    let all = a ∷ c ∷ b ∷ buff in
    let last : suc (suc (suc n)) - 1 ≡ suc (suc n) = omega arith in
    let last' : n ≡ suc n - 1 = omega arith in
    ap
      (λ i.
        summed s all (suc (suc (suc n)) % 2) (suc (suc (suc n)) - suc (suc (suc n)) % 2)
          (get_or all i 0))
      last
    ∙ ap (λ o. summed s all o (suc (suc (suc n)) - o) (get_or (b ∷ buff) n 0)) odd
    ∙ ap (λ e. summed s all (suc n % 2) e (get_or (b ∷ buff) n 0)) even
    ∙ ap (λ i. summed s all (suc n % 2) (suc (suc (suc n - suc n % 2))) (get_or (b ∷ buff) i 0))
        last'

-- What `PayloadSum16` computes when the sum of the words fits in 32 bits.
pub payload_sum16-total :
    (s : ℕ) (buff : List ℕ)
    → IsBytes buff
    → s + total buff < 2 ^ 32
    → payload_sum16 (record { sum = s }) buff ≡ ran (sum16 (s + total buff))
unfolding IsBytes payload_sum16
payload_sum16-total s [] b h = ap (λ v. ran (sum16 v)) {x = s} {y = s + 0} (omega arith)
payload_sum16-total s (a ∷ []) (p, b) h =
    ap (λ v. ran (sum16 v)) {x = add32 s (a * 2 ^ 8 % 2 ^ 32)} {y = s + a * 2 ^ 8} (omega arith)
payload_sum16-total s (a ∷ c ∷ buff) (p, (q, b)) h =
    let w = a * 2 ^ 8 + c in
    payload_sum16_step s a c buff
    ∙ payload_sum16-total (add32 s w) buff b (omega arith)
    ∙ ap (λ v. ran (sum16 v)) {x = add32 s w + total buff} {y = s + (w + total buff)} (omega arith)

Folds-ones_sum :
    (s r : ℕ) (buff : List ℕ) → IsBytes buff → Folds s r → Folds (s + total buff) (ones_sum r buff)
unfolding IsBytes ones_sum
Folds-ones_sum s r [] b f = subst (λ v. Folds v r) {x = s} {y = s + 0} (omega arith) f
Folds-ones_sum s r (a ∷ []) (p, b) f = Folds-ones_add s r (a * 2 ^ 8) f (omega arith)
Folds-ones_sum s r (a ∷ c ∷ buff) (p, (q, b)) f =
    let w = a * 2 ^ 8 + c in
    subst (λ v. Folds v (ones_sum (ones_add r w) buff)) {x = s + w + total buff}
      {y = s + (w + total buff)} (omega arith)
      (Folds-ones_sum (s + w) (ones_add r w) buff b (Folds-ones_add s r w f (omega arith)))

-- For bytes that are fewer than 131,071, `PayloadSum16` of a fresh checksum does not panic and is the
-- one's complement of the one's complement sum of the 16 bit words, the last one padded with a zero
-- byte if the number of bytes is odd.
pub payload_sum16-ones_sum :
    (buff : List ℕ)
    → IsBytes buff
    → length buff < 131071
    → payload_sum16 (record { sum = 0 }) buff ≡ ran (2 ^ 16 - 1 - ones_sum 0 buff)
unfolding Folds sum16
payload_sum16-ones_sum buff b h =
    let t = total_bound buff b in
    let f : Folds 0 0 = (omega arith, (0, omega arith), λ y. refl) in
    let u =
      Folds-unique (total buff) (2 ^ 16 - 1 - sum16 (total buff)) (ones_sum 0 buff)
        (Folds-sum16 (total buff) (omega arith))
        (subst (λ v. Folds v (ones_sum 0 buff)) {x = 0 + total buff} {y = total buff} (omega arith)
          (Folds-ones_sum 0 0 buff b f)) in
    payload_sum16-total 0 buff b (omega arith)
    ∙ ap (λ v. ran (sum16 v)) {x = 0 + total buff} {y = total buff} (omega arith)
    ∙ ap (λ v. ran v) {x = sum16 (total buff)} {y = 2 ^ 16 - 1 - ones_sum 0 buff} (omega arith)
