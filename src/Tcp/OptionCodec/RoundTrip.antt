-- ===== src/Tcp/OptionCodec/RoundTrip.antt =====
-- tcp/options.go: an option that was written is read back.
use lneto.Base.{
  ℕ, suc, ◌+◌, ◌-◌, ◌≡◌, refl, ap, ◌∙◌, inl, false, ◌&&◌, some, List, ◌∷◌, ◌++◌, arith, ltb, ◌==◌,
  length, drop, length-append, take_at, drop_at, write_at,
}
use lneto.Tcp.OptionCodec.{
  opt_nop, OptionCodec, done, is_obsolete, is_defined, size_error, pass, put_option, next,
}

-- What a call of `PutOption` that succeeds has written, and under which conditions.
put_option_inv :
    (dst dst' : List ℕ) (kind n : ℕ) (bytes : List ℕ)
    → put_option dst kind bytes ≡ inl (dst', n)
    → (n ≡ 2 + length bytes)
      × (dst' ≡ kind ∷ n ∷ (bytes ++ drop n dst))
      × ((kind == 0) ≡ false)
      × ((kind == opt_nop) ≡ false)
unfolding put_option write_at
put_option_inv dst dst' kind n bytes h = ground arith

pass_read :
    (op : OptionCodec) (kind n : ℕ) (bytes rest : List ℕ)
    → (op.skip_obsolete && is_defined kind && is_obsolete kind) ≡ false
    → n ≡ 2 + length bytes
    → (kind == 0) ≡ false
    → (kind == opt_nop) ≡ false
    → pass op (kind ∷ n ∷ (bytes ++ rest))
      ≡ done
          (record { kind = kind; opt_data = bytes; remaining = rest; err = size_error op kind n })
unfolding pass
pass_read op kind n bytes rest f e z p =
    let a : ltb (2 + length (bytes ++ rest)) n ≡ false = ground (arith, length-append bytes rest) in
    let b : ltb n 2 ≡ false = ground arith in
    rw
      (
        z,
        p,
        a,
        b,
        f,
        take_at {n = n - 2} bytes rest (omega arith),
        drop_at {n = n - 2} bytes rest (omega arith),
      )
      refl

next_read :
    (fuel : ℕ) (op : OptionCodec) (kind n : ℕ) (bytes rest : List ℕ)
    → (op.skip_obsolete && is_defined kind && is_obsolete kind) ≡ false
    → n ≡ 2 + length bytes
    → (kind == 0) ≡ false
    → (kind == opt_nop) ≡ false
    → next (suc fuel) op (kind ∷ n ∷ (bytes ++ rest))
      ≡ some
          (record { kind = kind; opt_data = bytes; remaining = rest; err = size_error op kind n })
unfolding next
next_read fuel op kind n bytes rest f e z p = rw (pass_read op kind n bytes rest f e z p, next) refl

-- After a `PutOption` that succeeds, `Next` on the same buffer, for a kind that its flags do not
-- skip, gives the kind and the data that were written and leaves what follows them; its error is that
-- of the size check for the kind.
pub next-put_option :
    (fuel : ℕ) (op : OptionCodec) (dst dst' : List ℕ) (kind n : ℕ) (bytes : List ℕ)
    → (op.skip_obsolete && is_defined kind && is_obsolete kind) ≡ false
    → put_option dst kind bytes ≡ inl (dst', n)
    → next (suc fuel) op dst'
      ≡ some (record {
        kind = kind;
        opt_data = bytes;
        remaining = drop n dst;
        err = size_error op kind n;
      })
next-put_option fuel op dst dst' kind n bytes f h =
    let (e, d, z, p) = put_option_inv dst dst' kind n bytes h in
    ap (next (suc fuel) op) d ∙ next_read fuel op kind n bytes (drop n dst) f e z p
