-- ===== src/Dns/Walk.antt =====
-- dns/dns.go: a walk along the labels of a name ends, stays in the message, and moves on.
use lneto.Base.{
  ℕ, zero, suc, ◌+◌, ◌-◌, ◌*◌, ◌%◌, ◌^◌, ◌≤◌, ◌<◌, ◌≡◌, refl, subst, ◌≢◌, inl, inr, Bool, true,
  false, Option, none, some, List, [], ◌∷◌, arith, ltb, leb, ◌==◌, if◌then◌else◌, bit_and,
  Option-cases, length, take, drop, length-drop,
}
use lneto.Dns.{
  Error, invalid_ptr, too_many_ptr, res_too_long, dot, has_byte, Label, text_label, pointer_label,
  next_label, Visit, visited, Round, again, ends, max_ptr, visit_label, visit_round, visit_labels,
  visit_all_labels,
}

-- A label that was read without an error lies in the `len` bytes that it was read from.
record LabelFits (len : ℕ) (l : Label) : Type 0 where
  stop_within : l.err ≡ none → l.is_pointer ≡ false → l.stop ≤ len
  some_byte : l.err ≡ none → 1 ≤ len
  two_bytes : l.err ≡ none → l.is_pointer ≡ true → 2 ≤ len
  moves : l.err ≡ none → l.is_pointer ≡ false → 1 ≤ l.stop

LabelFits-if :
    (len : ℕ) (b : Bool) (x y : Label)
    → (b ≡ true → LabelFits len x)
    → (b ≡ false → LabelFits len y)
    → LabelFits len (if b then x else y)
LabelFits-if len true x y p q = p refl
LabelFits-if len false x y p q = q refl

text_label-LabelFits : (c : ℕ) (rest : List ℕ) → LabelFits (suc (length rest)) (text_label c rest)
unfolding text_label
text_label-LabelFits c rest =
    let len = suc (length rest) in
    LabelFits-if len (c == 0) _ _
      (λ z. record {
        stop_within = λ e p. omega arith;
        some_byte = λ e. omega arith;
        two_bytes = λ e p. absurd (ground arith);
        moves = λ e p. omega arith;
      })
      (λ nz.
        LabelFits-if len (ltb len (1 + c)) _ _
          (λ z. record {
            stop_within = λ e p. absurd (ground arith);
            some_byte = λ e. omega arith;
            two_bytes = λ e p. absurd (ground arith);
            moves = λ e p. omega arith;
          })
          (λ fits.
            LabelFits-if len (has_byte (take c rest) dot) _ _
              (λ z. record {
                stop_within = λ e p. absurd (ground arith);
                some_byte = λ e. omega arith;
                two_bytes = λ e p. absurd (ground arith);
                moves = λ e p. omega arith;
              })
              (λ z. record {
                stop_within = λ e p. ground arith;
                some_byte = λ e. omega arith;
                two_bytes = λ e p. absurd (ground arith);
                moves = λ e p. omega arith;
              })))

pointer_label-LabelFits :
    (c : ℕ) (rest : List ℕ) → LabelFits (suc (length rest)) (pointer_label c rest)
unfolding pointer_label
pointer_label-LabelFits c [] = record {
  stop_within = λ e p. absurd (ground arith);
  some_byte = λ e. absurd (ground arith);
  two_bytes = λ e p. absurd (ground arith);
  moves = λ e p. absurd (ground arith);
}
pointer_label-LabelFits c (c1 ∷ rest) = record {
  stop_within = λ e p. absurd (ground arith);
  some_byte = λ e. omega arith;
  two_bytes = λ e p. omega arith;
  moves = λ e p. absurd (ground arith);
}

next_label-LabelFits : (bs : List ℕ) → LabelFits (length bs) (next_label bs)
unfolding next_label
next_label-LabelFits [] = record {
  stop_within = λ e p. absurd (ground arith);
  some_byte = λ e. absurd (ground arith);
  two_bytes = λ e p. absurd (ground arith);
  moves = λ e p. absurd (ground arith);
}
next_label-LabelFits (c ∷ rest) =
    let len = suc (length rest) in
    LabelFits-if len (bit_and c 0xc0 == 0) _ _ (λ z. text_label-LabelFits c rest)
      (λ nz.
        LabelFits-if len (bit_and c 0xc0 == 0xc0) _ _ (λ z. pointer_label-LabelFits c rest)
          (λ z. record {
            stop_within = λ e p. absurd (ground arith);
            some_byte = λ e. omega arith;
            two_bytes = λ e p. absurd (ground arith);
            moves = λ e p. absurd (ground arith);
          }))

-- An end at or before `len`, past `lo` when there is no error.
data Ended {ℓ} {S : Type ℓ} (lo len : ℕ) (v : Visit S) : Type ℓ where
  ended :
      (s : S) (off : ℕ) (err : Option Error)
      → v ≡ visited s off err
      → off ≤ len
      → (err ≡ none → lo < off)
      → Ended lo len v

-- The offsets of a walk that began at `lo`, with `left` pointers to go.
record Within (lo len off new_off ptr left : ℕ) : Type 0 where
  inside : off ≤ len
  pointers : ptr + left ≡ max_ptr
  first : ptr ≡ 0 → lo ≤ off
  later : ptr ≢ 0 → (lo < new_off) × (new_off ≤ len)

-- What is left of a walk.
abbrev measure : ℕ → ℕ → ℕ → ℕ
measure len left off = left * (len + 1) + (len - off)

choice_within :
    {lo len : ℕ} (b : Bool) (x y : ℕ)
    → (b ≡ true → (lo < x) × (x ≤ len))
    → (b ≡ false → (lo < y) × (y ≤ len))
    → (lo < (if b then x else y)) × ((if b then x else y) ≤ len)
choice_within true x y p q = p refl
choice_within false x y p q = q refl

-- Past the name, which is `k` bytes on when no pointer was followed.
after_name :
    {lo len off new_off left : ℕ} (ptr k : ℕ)
    → len < 2 ^ 16
    → Within lo len off new_off ptr left
    → 1 ≤ k
    → k ≤ len - off
    → (lo < (if ptr == 0 then (off + k) % 2 ^ 16 else new_off))
      × ((if ptr == 0 then (off + k) % 2 ^ 16 else new_off) ≤ len)
after_name {off = off} {new_off = new_off} ptr k u w a b =
    choice_within (ptr == 0) ((off + k) % 2 ^ 16) new_off
      (λ z. let f = w.first (ground arith) in let i = w.inside in (omega arith, omega arith))
      (λ nz. w.later (λ e. ground arith))

measure-jump :
    (left len start off : ℕ) → 1 ≤ left → measure len (left - 1) start < measure len left off
measure-jump zero len start off h = absurd (omega arith)
measure-jump (suc left) len start off h = grind arith

module _ {ℓ} {S : Type ℓ} (fn : S → List ℕ → S) where
  data Steps (lo len bound : ℕ) : Round S → Type ℓ where
    stops : {v : Visit S} → Ended lo len v → Steps lo len bound (ends v)
    steps :
        {off new_off ptr : ℕ} {s : S} (left : ℕ)
        → Within lo len off new_off ptr left
        → measure len left off < bound
        → Steps lo len bound (again off new_off ptr s)

  Steps-if :
      (lo len bound : ℕ) (b : Bool) (x y : Round S)
      → (b ≡ true → Steps lo len bound x)
      → (b ≡ false → Steps lo len bound y)
      → Steps lo len bound (if b then x else y)
  Steps-if lo len bound true x y p q = p refl
  Steps-if lo len bound false x y p q = q refl

  visit_label-Steps :
      (lo : ℕ) (msg : List ℕ) (off new_off ptr left : ℕ) (s : S) (l : Label)
      → length msg < 2 ^ 16
      → Within lo (length msg) off new_off ptr left
      → LabelFits (length msg - off) l
      → Steps lo
          (length msg)
          (measure (length msg) left off)
          (visit_label fn msg off new_off ptr s l)
  unfolding visit_label
  visit_label-Steps lo msg off new_off ptr left s l u w f = elim (Option-cases l.err) [
    | inr (x, n) ↦ rw n (stops (ended s off (some x) refl w.inside (λ e. absurd (ground arith))))
    | inl n ↦ rw n (
        let len = length msg in
        let bound = measure len left off in
        let one = f.some_byte n in
        let two = f.two_bytes n in
        Steps-if lo len bound (l.start == l.stop) _ _
          (λ e.
            let (a, b) = after_name ptr 1 u w (omega arith) one in
            stops (ended s _ none refl b (λ z. a)))
          (λ ne.
            Steps-if lo len bound l.is_pointer _ _
              (λ p.
                let (a, b) = after_name ptr 2 u w (omega arith) (two p) in
                Steps-if lo len bound (leb len l.start) _ _
                  (λ o. stops (ended s _ (some invalid_ptr) refl b (λ z. a)))
                  (λ i.
                    Steps-if lo len bound (ltb max_ptr (ptr + 1)) _ _
                      (λ t. stops (ended s _ (some too_many_ptr) refl b (λ z. a)))
                      (λ k.
                        let sum = w.pointers in
                        let spare : 1 ≤ left = ground arith in
                        steps (left - 1)
                          (record {
                            inside = ground arith;
                            pointers = omega arith;
                            first = λ z. absurd (omega arith);
                            later = λ nz. (a, b);
                          })
                          (measure-jump left len l.start off spare))))
              (λ t.
                let g = f.moves n t in
                let h = f.stop_within n t in
                let i = w.inside in
                steps left
                  (record {
                    inside = omega arith;
                    pointers = w.pointers;
                    first = λ z. let o = w.first z in omega arith;
                    later = w.later;
                  })
                  (omega arith))))
  ]

  visit_round-Steps :
      (lo : ℕ) (msg : List ℕ) (off new_off ptr left : ℕ) (s : S)
      → length msg < 2 ^ 16
      → Within lo (length msg) off new_off ptr left
      → Steps lo (length msg) (measure (length msg) left off) (visit_round fn msg off new_off ptr s)
  unfolding visit_round
  visit_round-Steps lo msg off new_off ptr left s u w =
      Steps-if lo (length msg) (measure (length msg) left off) (ltb (length msg) off) _ _
        (λ o. let i = w.inside in absurd (ground arith))
        (λ i. visit_label-Steps lo msg off new_off ptr left s (next_label (drop off msg)) u w (
          subst (λ n. LabelFits n (next_label (drop off msg))) (length-drop off msg)
            (next_label-LabelFits (drop off msg))))

  visit_labels-Ended :
      (fuel lo : ℕ) (msg : List ℕ) (off new_off ptr left : ℕ) (s : S)
      → length msg < 2 ^ 16
      → Within lo (length msg) off new_off ptr left
      → measure (length msg) left off < fuel
      → Ended lo (length msg) (visit_labels fn fuel msg off new_off ptr s)
  unfolding visit_labels
  visit_labels-Ended zero lo msg off new_off ptr left s u w h = absurd (omega arith)
  visit_labels-Ended (suc fuel) lo msg off new_off ptr left s u w h =
      go (visit_round fn msg off new_off ptr s)
        (visit_round-Steps lo msg off new_off ptr left s u w)
        (λ off' new_off' ptr' left' s' w' l.
          visit_labels-Ended fuel lo msg off' new_off' ptr' left' s' u w' (omega arith))
    where
      go :
          (r : Round S)
          → Steps lo (length msg) (measure (length msg) left off) r
          → ((off' new_off' ptr' left' : ℕ) (s' : S)
              → Within lo (length msg) off' new_off' ptr' left'
              → measure (length msg) left' off' < measure (length msg) left off
              → Ended lo (length msg) (visit_labels fn fuel msg off' new_off' ptr' s'))
          → Ended lo (length msg) (elim r [
            | ends v ↦ v
            | again off' new_off' ptr' s' ↦ visit_labels fn fuel msg off' new_off' ptr' s'
          ])
      go (ends v) (stops d) ih = d
      go (again off' new_off' ptr' s') (steps left' w' l) ih = ih off' new_off' ptr' left' s' w' l

  Ended-if :
      (lo len : ℕ) (b : Bool) (x y : Visit S)
      → (b ≡ true → Ended lo len x)
      → (b ≡ false → Ended lo len y)
      → Ended lo len (if b then x else y)
  Ended-if lo len true x y p q = p refl
  Ended-if lo len false x y p q = q refl

  visit_all_labels-Ended :
      (msg : List ℕ) (off : ℕ) (s : S)
      → off ≤ length msg
      → Ended off (length msg) (visit_all_labels fn msg off s)
  unfolding visit_all_labels
  visit_all_labels-Ended msg off s h =
      Ended-if off (length msg) (ltb (2 ^ 16 - 1) (length msg)) _ _
        (λ o. ended s off (some res_too_long) refl h (λ e. absurd (ground arith)))
        (λ u.
          visit_labels-Ended ((max_ptr + 1) * (length msg + 1)) off msg off off 0 max_ptr s
            (ground arith)
            (record {
              inside = h;
              pointers = refl;
              first = λ z. omega arith;
              later = λ nz. absurd (nz refl);
            })
            (omega arith))

  -- From any offset of a message the walk ends, whatever the bytes and the callback: no slice
  -- expression is out of range, no pointer leads it round for ever, the offset that it returns is in
  -- the message, and without an error it is past the one it began at.
  pub visit_all_labels_total :
      (msg : List ℕ) (off : ℕ) (s : S)
      → off ≤ length msg
      → (s' : S) × (off' : ℕ) × (err : Option Error) × (visit_all_labels fn msg off s
          ≡ visited s' off' err)
        × (off' ≤ length msg)
        × (err ≡ none → off < off')
  visit_all_labels_total msg off s h = elim (visit_all_labels-Ended msg off s h) [
    | ended s' off' err e b m ↦ (s', off', err, e, b, m)
  ]
