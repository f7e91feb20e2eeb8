-- ===== src/Tcp/Reassembly/Insert.antt =====
-- tcp/reassembly.go: the search and the tests of store find the place for a segment.
use lneto.Base.{
  ℕ, zero, suc, ◌+◌, ◌^◌, ◌≤◌, ◌<◌, ◌≡◌, refl, sym, ap, ◌∙◌, subst, inl, inr, true, false, List, [],
  ◌∷◌, arith, ltb, Bool-cases, IsU32, length, write_at,
}
use lneto.Tcp.Value.{Value, less_than, add, sizeof}
use lneto.Tcp.Reassembly.{
  Held, insertion_point, overlaps_predecessor, clear_of, successor, insert_at,
}
use lneto.Tcp.Reassembly.Stream.{bytes, length-bytes, add-IsU32, Placed, Chain, Chain-le}
use lneto.Tcp.Reassembly.Place.{
  Placed-here, Placed-elsewhere, Chain-behind, less_than_offset, offset_end,
}

-- The tests on a held segment, on places after `base`.
starts_before_iff :
    (stream : Value → ℕ) (base seq : Value) (l : List ℕ) (lo : ℕ) (s : Held)
    → IsU32 base
    → IsU32 seq
    → sizeof base seq < 2 ^ 31
    → sizeof base s.seq < 2 ^ 31
    → Placed stream base 0 l lo s
    → less_than s.seq seq ≡ ltb (sizeof base s.seq) (sizeof base seq)
starts_before_iff stream base seq l lo s hb hs p q a =
    less_than_offset base s.seq seq hb a.seq_in hs q (omega arith)

reaches_past_iff :
    (stream : Value → ℕ) (base seq : Value) (l : List ℕ) (lo : ℕ) (s : Held)
    → IsU32 base
    → IsU32 seq
    → sizeof base seq < 2 ^ 31
    → sizeof base s.seq + s.n ≤ 2 ^ 31
    → Placed stream base 0 l lo s
    → less_than seq (add s.seq s.n) ≡ ltb (sizeof base seq) (sizeof base s.seq + s.n)
reaches_past_iff stream base seq l lo s hb hs p q a =
    let e = offset_end base s.seq s.n hb a.seq_in (omega arith) in
    less_than_offset base seq (add s.seq s.n) hb hs (add-IsU32 s.seq s.n) p (omega (arith, e))
    ∙ ap (ltb (sizeof base seq)) e

-- At the insertion point: the segment there starts at least `n` places after `seq`.
successor_apart :
    (stream : Value → ℕ) (base seq : Value) (l : List ℕ) (lo n : ℕ) (s : Held) (ss : List Held)
    → IsU32 base
    → IsU32 seq
    → sizeof base seq + n ≤ 2 ^ 31
    → 0 < n
    → sizeof base s.seq < 2 ^ 31
    → Placed stream base 0 l lo s
    → successor (s ∷ ss) 0 seq (add seq n) ≡ clear_of
    → sizeof base seq + n ≤ sizeof base s.seq
unfolding successor
successor_apart stream base seq l lo n s ss hb hs h p q a c =
    let e = offset_end base seq n hb hs (omega arith) in
    let g =
      less_than_offset base s.seq (add seq n) hb a.seq_in (add-IsU32 seq n) q (omega (arith, e)) in
    ground (arith, e, g)

-- what the search and the two tests of `store` say of the segments behind the first
insertion_point_before :
    (s : Held) (ss : List Held) (seq : Value)
    → less_than s.seq seq ≡ true
    → insertion_point (s ∷ ss) seq ≡ suc (insertion_point ss seq)
unfolding insertion_point
insertion_point_before s ss seq h = rw h refl

insertion_point_here :
    (s : Held) (ss : List Held) (seq : Value)
    → less_than s.seq seq ≡ false
    → insertion_point (s ∷ ss) seq ≡ 0
unfolding insertion_point
insertion_point_here s ss seq h = rw h refl

predecessor_tail :
    (s : Held) (ss : List Held) (i : ℕ) (seq : Value)
    → overlaps_predecessor (s ∷ ss) (suc i) seq ≡ false
    → overlaps_predecessor ss i seq ≡ false
unfolding overlaps_predecessor
predecessor_tail s ss zero seq h = refl
predecessor_tail s ss (suc i) seq h = h

-- The first segment ends before `seq` if it starts before.
predecessor_apart :
    (stream : Value → ℕ) (base seq : Value) (l : List ℕ) (hi lo : ℕ) (s : Held) (ss : List Held)
    → IsU32 base
    → IsU32 seq
    → hi ≤ 2 ^ 31
    → sizeof base seq < 2 ^ 31
    → Placed stream base 0 l lo s
    → Chain stream base 0 l hi (sizeof base s.seq + s.n) ss
    → overlaps_predecessor (s ∷ ss) (suc (insertion_point ss seq)) seq ≡ false
    → sizeof base s.seq + s.n ≤ sizeof base seq
unfolding overlaps_predecessor insertion_point Chain
predecessor_apart stream base seq l hi lo s [] hb hs w p a c h =
    let e = reaches_past_iff stream base seq l lo s hb hs p (omega arith) a in ground (arith, e)
predecessor_apart stream base seq l hi lo s (t ∷ ts) hb hs w p a (b, c) h =
    let top = Chain-le stream base 0 l hi (sizeof base t.seq + t.n) ts c in
    elim (Bool-cases (less_than t.seq seq)) [
      | inl y ↦
          let e =
            starts_before_iff stream base seq l (sizeof base s.seq + s.n) t hb hs p
              (omega (arith, b.some_bytes)) b in
          ground (arith, e, b.above)
      | inr y ↦
          let e = reaches_past_iff stream base seq l lo s hb hs p (omega (arith, b.above)) a in
          let i = insertion_point_here t ts seq y in
          let g = ap (λ k. overlaps_predecessor (s ∷ t ∷ ts) (suc k) seq) (sym i) ∙ h in
          ground (arith, e, g)
    ]

successor_tail :
    (s : Held) (ss : List Held) (i : ℕ) (seq stop : Value)
    → successor (s ∷ ss) (suc i) seq stop ≡ clear_of
    → successor ss i seq stop ≡ clear_of
unfolding successor
successor_tail s ss i seq stop h = h

pub insert-Chain :
    (stream : Value → ℕ) (base seq : Value) (l b : List ℕ) (hi lo n : ℕ) (held : List Held)
    → IsU32 base
    → IsU32 seq
    → hi ≤ 2 ^ 31
    → hi ≤ length l
    → 0 < n
    → b ≡ bytes stream seq n
    → lo ≤ sizeof base seq
    → sizeof base seq + n ≤ hi
    → overlaps_predecessor held (insertion_point held seq) seq ≡ false
    → successor held (insertion_point held seq) seq (add seq n) ≡ clear_of
    → Chain stream base 0 l hi lo held
    → Chain stream base 0
        (write_at l (sizeof base seq) b)
        hi
        lo
        (insert_at held (insertion_point held seq) (record { seq = seq; n = n }))
unfolding Chain insert_at insertion_point
insert-Chain stream base seq l b hi lo n [] hb hs w k p e h top pred succ c =
    (Placed-here stream base seq l b lo n hs h (omega arith) p e, top)
insert-Chain stream base seq l b hi lo n (s ∷ ss) hb hs w k p e h top pred succ (a, c) =
    let d = sizeof base seq in
    let ds = sizeof base s.seq in
    let x : Held = record { seq = seq; n = n } in
    let len : length b ≡ n = ap length e ∙ length-bytes stream seq n in
    let s_top = Chain-le stream base 0 l hi (ds + s.n) ss c in
    elim (Bool-cases (less_than s.seq seq)) [
      | inl y ↦
          let i = insertion_point_before s ss seq y in
          let pred' = ap (λ j. overlaps_predecessor (s ∷ ss) j seq) (sym i) ∙ pred in
          let succ' = ap (λ j. successor (s ∷ ss) j seq (add seq n)) (sym i) ∙ succ in
          let apart =
            predecessor_apart stream base seq l hi lo s ss hb hs w (omega arith) a c pred' in
          subst (λ j. Chain stream base 0 (write_at l d b) hi lo (insert_at (s ∷ ss) j x)) (sym i)
            (
              Placed-elsewhere stream base l b lo lo d s (omega arith) a.above (inl apart) a,
              insert-Chain stream base seq l b hi (ds + s.n) n ss hb hs w k p e apart top
                  (predecessor_tail s ss (insertion_point ss seq) seq pred')
                  (successor_tail s ss (insertion_point ss seq) seq (add seq n) succ') c,
            )
      | inr y ↦
          let i = insertion_point_here s ss seq y in
          let succ' = ap (λ j. successor (s ∷ ss) j seq (add seq n)) (sym i) ∙ succ in
          let apart =
            successor_apart stream base seq l lo n s ss hb hs (omega arith) p
              (omega (arith, a.some_bytes)) a succ' in
          subst (λ j. Chain stream base 0 (write_at l d b) hi lo (insert_at (s ∷ ss) j x)) (sym i)
            (
              Placed-here stream base seq l b lo n hs h (omega arith) p e,
              (
                Placed-elsewhere stream base l b lo (d + n) d s (omega arith) apart
                    (inr (omega arith)) a,
                Chain-behind stream base l b hi (ds + s.n) d ss (omega arith) (omega arith) c,
              ),
            )
    ]
