-- ===== src/Tcp/OptionCodec/Passes.antt =====
-- tcp/options.go: the passes of the parser end.
use lneto.Base.{
  ℕ, zero, suc, ◌+◌, ◌-◌, ◌<◌, ◌≡◌, refl, ◌⊎◌, inl, inr, Bool, true, false, ◌&&◌, Option, none,
  some, List, [], ◌∷◌, arith, ltb, ◌==◌, if◌then◌else◌, Option-cases, length, length-drop,
}
use lneto.Tcp.OptionCodec.{
  Error, opt_end, opt_nop, OptionCodec, is_obsolete, is_defined, Parsed, Pass, redo, done, pass,
  next, for_each_option,
}

-- The end of the options, or less is left.
Advances : List ℕ → Parsed → Type 0
Advances opts p = (p.kind ≡ opt_end) ⊎ (length p.remaining < length opts)

-- What is left after a pass of either kind.
Shrinks : List ℕ → Pass → Type 0
unfolding Advances
Shrinks opts (redo rest) = length rest < length opts
Shrinks opts (done p) = Advances opts p

Shrinks-if :
    (opts : List ℕ) (b : Bool) (x y : Pass)
    → Shrinks opts x
    → Shrinks opts y
    → Shrinks opts (if b then x else y)
Shrinks-if opts true x y p q = p
Shrinks-if opts false x y p q = q

pass-Shrinks : (op : OptionCodec) (opts : List ℕ) → Shrinks opts (pass op opts)
unfolding Shrinks pass Advances
pass-Shrinks op [] = inl refl
pass-Shrinks op (kind ∷ []) =
    let opts = kind ∷ [] in
    Shrinks-if opts (kind == 0) _ _ (inl refl)
      (Shrinks-if opts (kind == opt_nop) _ _ (inr (omega arith)) (inr (omega arith)))
pass-Shrinks op (kind ∷ size ∷ rest) =
    let opts = kind ∷ size ∷ rest in
    let l = length-drop (size - 2) rest in
    Shrinks-if opts (kind == 0) _ _ (inl refl) (
      Shrinks-if opts (kind == opt_nop) _ _ (inr (omega arith)) (
        Shrinks-if opts (ltb (2 + length rest) size) _ _ (inr (omega arith)) (
          Shrinks-if opts (ltb size 2) _ _ (inr (omega arith)) (
            Shrinks-if opts (op.skip_obsolete && is_defined kind && is_obsolete kind) _ _
              (omega arith) (inr (omega arith))))))

-- `Next` returns, and advances.
Nexts : Option Parsed → List ℕ → Type 0
Nexts r opts = (p : Parsed) × (r ≡ some p) × Advances opts p

next_total :
    (fuel : ℕ) (op : OptionCodec) (opts : List ℕ)
    → length opts < fuel
    → Nexts (next fuel op opts) opts
unfolding next Nexts Shrinks Advances
next_total zero op opts h = absurd (omega arith)
next_total (suc fuel) op opts h =
    go (pass op opts) (pass-Shrinks op opts) (λ rest l. next_total fuel op rest (omega arith))
  where
    go :
        (r : Pass)
        → Shrinks opts r
        → ((rest : List ℕ) → length rest < length opts → Nexts (next fuel op rest) rest)
        → Nexts (elim r [ done p ↦ some p | redo rest ↦ next fuel op rest ]) opts
    go (done p) s ih = (p, refl, s)
    go (redo rest) s ih =
        let (p, e, a) = ih rest s in (p, e, elim a [ inl a ↦ inl a | inr a ↦ inr (omega arith) ])

module _ {ℓ} {S : Type ℓ} (fn : S → ℕ → List ℕ → S × Option Error) where
  Returns : Option (S × Option Error) → Type ℓ
  Returns o = (r : S × Option Error) × (o ≡ some r)

  Returns-if :
      (b : Bool) (x y : Option (S × Option Error))
      → Returns x
      → Returns y
      → Returns (if b then x else y)
  Returns-if true x y p q = p
  Returns-if false x y p q = q

  -- With fuel for more passes than there are bytes, `ForEachOption` returns, whatever the bytes,
  -- the flags and the callback.
  pub for_each_option_total :
      (fuel : ℕ) (op : OptionCodec) (opts : List ℕ) (s : S)
      → length opts < fuel
      → (r : S × Option Error) × (for_each_option fn fuel op opts s ≡ some r)
  unfolding for_each_option Advances Nexts Returns
  for_each_option_total zero op opts s h = absurd (omega arith)
  for_each_option_total (suc fuel) op opts s h =
      let (p, e, a) = next_total (suc fuel) op opts h in
      rw (e, for_each_option)
        (elim (Option-cases p.err) [
          | inl n ↦ rw n (elim a [
            | inl y ↦ rw y ((s, none), refl)
            | inr l ↦
                let ih = λ (s : S). for_each_option_total fuel op p.remaining s (omega arith) in
                Returns-if (p.kind == opt_end) _ _ ((s, none), refl)
                  (Returns-if (p.kind == opt_nop) _ _ (ih s)
                    (elim (Option-cases (fn s p.kind p.opt_data).1) [
                      | inl q ↦ rw q (ih (fn s p.kind p.opt_data).0)
                      | inr (x, q) ↦ rw q (((fn s p.kind p.opt_data).0, some x), refl)
                    ]))
          ])
          | inr (x, n) ↦ rw n ((s, some x), refl)
        ])
