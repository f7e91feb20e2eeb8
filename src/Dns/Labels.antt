-- ===== src/Dns/Labels.antt =====
-- dns/dns.go: what a name in a message stands for, and `NextLabel` of its parts.
use lneto.Base.{
  ℕ, zero, suc, ◌+◌, ◌*◌, ◌%◌, ◌^◌, ◌≤◌, ◌<◌, ◌≡◌, refl, sym, ◌∙◌, subst, ◌⊎◌, inl, inr, Bool, true,
  false, ◌&&◌, none, List, [], ◌∷◌, ◌++◌, arith, ltb, ◌==◌, bit_and, bit_xor, length, take, drop,
  length-append, take_at, bit_and_192,
}
use lneto.Dns.{dot, has_byte, text_label, pointer_label, next_label}

-- A label of a name.
pub record IsLabel (label : List ℕ) : Type 0 where
  pub some_byte : 1 ≤ length label
  pub short : length label ≤ 63
  pub no_dot : has_byte label dot ≡ false

-- The labels on the wire, without the root.
unfoldable pub wire : List (List ℕ) → List ℕ
wire [] = []
wire (label ∷ labels) = length label ∷ (label ++ wire labels)

-- The name at an offset of a message has these labels, the next item after it is at that offset, and
-- that many pointers are followed. RFC 1035, 4.1.4.
pub data NameAt (msg : List ℕ) : ℕ → List (List ℕ) → ℕ → ℕ → Type 0 where
  root : {off : ℕ} (rest : List ℕ) → drop off msg ≡ 0 ∷ rest → NameAt msg off [] (off + 1) 0
  label :
      {off fin hops : ℕ} (l rest : List ℕ) {ls : List (List ℕ)}
      → IsLabel l
      → drop off msg ≡ length l ∷ (l ++ rest)
      → NameAt msg (off + (1 + length l)) ls fin hops
      → NameAt msg off (l ∷ ls) fin hops
  pointer :
      {off fin hops : ℕ} (hi lo : ℕ) (rest : List ℕ) {ls : List (List ℕ)}
      → hi < 2 ^ 6
      → lo < 2 ^ 8
      → 1 ≤ hi * 2 ^ 8 + lo
      → drop off msg ≡ (0xc0 + hi) ∷ lo ∷ rest
      → hi * 2 ^ 8 + lo < length msg
      → NameAt msg (hi * 2 ^ 8 + lo) ls fin hops
      → NameAt msg off ls (off + 2) (suc hops)

pub data AreLabels : List (List ℕ) → Type 0 where
  no_labels : AreLabels []
  and_label : {l : List ℕ} {ls : List (List ℕ)} → IsLabel l → AreLabels ls → AreLabels (l ∷ ls)

unfoldable all_below : (ℕ → Bool) → ℕ → Bool
all_below p zero = true
all_below p (suc n) = p n && all_below p n

lt_last : (i n : ℕ) → i < suc n → (i ≡ n) ⊎ (i < n)
lt_last i n h = ground arith

all_below_lem : (p : ℕ → Bool) (n i : ℕ) → all_below p n ≡ true → i < n → p i ≡ true
unfolding all_below
all_below_lem p zero i a h = absurd (omega arith)
all_below_lem p (suc n) i a h = elim (lt_last i n h) [
  | inl e ↦ subst (λ k. p k ≡ true) (sym e) (ground arith)
  | inr l ↦ all_below_lem p n i (ground arith) l
]

clears_mark : all_below (λ hi. bit_xor (0xc0 + hi) 0xc0 == hi) (2 ^ 6) ≡ true
unfolding all_below
clears_mark = refl

bit_xor_mark : (hi : ℕ) → hi < 2 ^ 6 → bit_xor (0xc0 + hi) 0xc0 ≡ hi
bit_xor_mark hi h =
    let e = all_below_lem (λ hi. bit_xor (0xc0 + hi) 0xc0 == hi) (2 ^ 6) hi clears_mark h in
    ground arith

pub next_label-text :
    (l rest : List ℕ)
    → IsLabel l
    → next_label (length l ∷ (l ++ rest))
      ≡ record { start = 1; stop = 1 + length l; is_pointer = false; err = none }
unfolding next_label text_label
next_label-text l rest i =
    let n = length l in
    let byte = i.some_byte in
    let short = i.short in
    let clear : bit_and n 0xc0 ≡ 0 = bit_and_192 n ∙ omega arith in
    let whole : take n (l ++ rest) ≡ l = take_at l rest refl in
    let text : (n == 0) ≡ false = ground arith in
    let fits : ltb (suc (length (l ++ rest))) (1 + n) ≡ false =
      let s = length-append l rest in ground arith in
    rw (clear, text, fits, whole, i.no_dot) refl

pub next_label-pointer :
    (hi lo : ℕ) (rest : List ℕ)
    → hi < 2 ^ 6
    → lo < 2 ^ 8
    → next_label ((0xc0 + hi) ∷ lo ∷ rest)
      ≡ record { start = hi * 2 ^ 8 + lo; stop = 0; is_pointer = true; err = none }
unfolding next_label pointer_label
next_label-pointer hi lo rest h l =
    let mark : bit_and (0xc0 + hi) 0xc0 ≡ 0xc0 = bit_and_192 (0xc0 + hi) ∙ omega arith in
    let low : hi * 2 ^ 8 % 2 ^ 16 ≡ hi * 2 ^ 8 = omega arith in
    rw (mark, bit_xor_mark hi h, low) refl
