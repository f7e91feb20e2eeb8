-- ===== src/Checksum/Field.antt =====
-- crc.go: a checksum that is put in its field makes the whole sum up to zero.
use lneto.Base.{
  ℕ, ◌+◌, ◌-◌, ◌*◌, ◌/◌, ◌%◌, ◌^◌, ◌<◌, ◌≡◌, refl, ap, ◌∙◌, ◌⊎◌, inl, inr, List, [], ◌∷◌, ◌++◌,
  arith, ◌==◌, Bool-cases, ==_iff, length, ran,
}
use lneto.Checksum.{sum16, payload_sum16, never_zero_sum}
use lneto.Checksum.Folds.{
  IsBytes, total, total_bound, Folds, Folds-unique, Folds-sum16, payload_sum16-total,
}

IsBytes-append : (pre post : List ℕ) → IsBytes pre → IsBytes post → IsBytes (pre ++ post)
unfolding IsBytes
IsBytes-append [] post p q = q
IsBytes-append (a ∷ pre) post (l, p) q = (l, IsBytes-append pre post p q)

total-append :
    (pre post : List ℕ) → length pre % 2 ≡ 0 → total (pre ++ post) ≡ total pre + total post
total-append [] post h = omega arith
total-append (a ∷ []) post h = absurd (omega arith)
total-append (a ∷ c ∷ pre) post h = omega (arith, total-append pre post (omega arith))

sum16_bound : (t : ℕ) → sum16 t < 2 ^ 16
unfolding sum16
sum16_bound t = omega arith

-- Adding the complement of the sum gives a sum that folds to all ones.
sum16_self :
    (t w : ℕ)
    → t + w < 2 ^ 32
    → (w ≡ sum16 t) ⊎ ((sum16 t ≡ 0) × (w ≡ 2 ^ 16 - 1))
    → sum16 (t + w) ≡ 0
unfolding Folds
sum16_self t w h e =
    let (p, (k, f), z) = Folds-sum16 t (omega arith) in
    let at = λ (k' : ℕ) (g : t + w ≡ 2 ^ 16 - 1 + k' * 65535).
      Folds-unique (t + w) (2 ^ 16 - 1 - sum16 (t + w)) (2 ^ 16 - 1) (Folds-sum16 (t + w) h)
        (omega arith, (k', g), λ y. absurd (omega arith)) in
    elim e [
      | inl e ↦ omega (arith, at k (omega (arith, sum16_bound t)))
      | inr (e, g) ↦ omega (arith, at (k + 1) (omega (arith, sum16_bound t)))
    ]

-- The checksum with a value in the field.
filled :
    (s : ℕ) (pre post : List ℕ) (w : ℕ)
    → length pre % 2 ≡ 0
    → IsBytes pre
    → IsBytes post
    → w < 2 ^ 16
    → s + (total pre + total post) + w < 2 ^ 32
    → payload_sum16 (record { sum = s }) (pre ++ (w / 2 ^ 8 ∷ w % 2 ^ 8 ∷ post))
      ≡ ran (sum16 (s + (total pre + total post) + w))
unfolding IsBytes
filled s pre post w e p q k h =
    let rest = w / 2 ^ 8 ∷ w % 2 ^ 8 ∷ post in
    let a = total-append pre rest e in
    payload_sum16-total s (pre ++ rest) (IsBytes-append pre rest p (omega arith, (omega arith, q)))
      (omega arith)
    ∙ ap (λ x. ran (sum16 x)) {x = s + total (pre ++ rest)} {y = s + (total pre + total post) + w}
        (omega arith)

-- A running sum, an even number of bytes, the two bytes of the field and further bytes, all fewer
-- than `2 ^ 32` as a sum: when the field holds zero as the checksum is computed, and then holds the
-- checksum, high byte first, either as it is or through `NeverZeroSum`, the checksum over the same
-- bytes is zero. Neither computation panics.
pub payload_sum16-field :
    (s : ℕ) (pre post : List ℕ)
    → length pre % 2 ≡ 0
    → IsBytes pre
    → IsBytes post
    → s + 2 ^ 15 * (length pre + length post + 6) < 2 ^ 32
    → (v : ℕ) × (payload_sum16 (record { sum = s }) (pre ++ (0 ∷ 0 ∷ post)) ≡ ran v)
      × (payload_sum16 (record { sum = s }) (pre ++ (v / 2 ^ 8 ∷ v % 2 ^ 8 ∷ post)) ≡ ran 0)
      × (let w = never_zero_sum v in
          payload_sum16 (record { sum = s }) (pre ++ (w / 2 ^ 8 ∷ w % 2 ^ 8 ∷ post)) ≡ ran 0)
unfolding IsBytes never_zero_sum
payload_sum16-field s pre post e p q h =
    let b = total_bound pre p in
    let c = total_bound post q in
    let t = s + (total pre + total post) in
    let v = sum16 t in
    let l = sum16_bound t in
    let field = λ (w : ℕ) (k : w < 2 ^ 16). filled s pre post w e p q k (omega arith) in
    (
      v,
      field 0 (omega arith) ∙ ap (λ x. ran (sum16 x)) {x = t + 0} {y = t} (omega arith),
      field v (omega arith) ∙ ap (λ x. ran x) (sum16_self t v (omega arith) (inl refl)),
      elim (Bool-cases (v == 0)) [
        | inl y ↦ rw y (
            field (2 ^ 16 - 1) (omega arith)
            ∙ ap (λ x. ran x)
                (sum16_self t (2 ^ 16 - 1) (omega arith) (inr ((==_iff v 0).0 y, refl))))
        | inr n ↦
            rw n (field v (omega arith) ∙ ap (λ x. ran x) (sum16_self t v (omega arith) (inl refl)))
      ],
    )
