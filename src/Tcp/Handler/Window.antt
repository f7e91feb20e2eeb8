-- ===== src/Tcp/Handler/Window.antt =====
-- tcp/handler.go: the window scale.
use lneto.Base.{
  ℕ, zero, suc, ◌+◌, ◌*◌, ◌/◌, ◌^◌, ◌≤◌, ◌<◌, ◌≡◌, refl, sym, ap, subst, inl, inr, true, false, not,
  ◌&&◌, arith, ltb, ◌==◌, Bool-cases, ==_iff,
}
use native.Mathlib.Nat.{div-mul-le_self, lt-div-mul-add, div-lt_iff_lt-mul, two-pow-succ}
use lneto.Tcp.Segment.{Segment, flag_syn, has_any, max_wnd_shift, max_window}
use lneto.Tcp.Handler.{Handler, wire_wnd, wnd_shift_from, wnd_shift_for}

-- A shift that fits, from `lo` on up to the limit, is the least.
record IsLeast (buf_size lo shift : ℕ) : Type 0 where
  fits : buf_size / 2 ^ shift ≤ 0xffff
  limit : shift ≤ max_wnd_shift
  least : (t : ℕ) → lo ≤ t → t < shift → 0xffff < buf_size / 2 ^ t

shift_from :
    (buf_size left lo : ℕ)
    → buf_size ≤ max_window
    → lo + left ≡ max_wnd_shift
    → IsLeast buf_size lo (wnd_shift_from buf_size left lo)
unfolding wnd_shift_from
shift_from buf_size zero lo h e =
    let full : lo ≡ 14 = omega arith in
    record {
      fits = subst (λ k. buf_size / 2 ^ k ≤ 0xffff) (sym full) (omega arith);
      limit = omega arith;
      least = λ t p q. absurd (omega arith);
    }
shift_from buf_size (suc left) lo h e = elim (Bool-cases (ltb 0xffff (buf_size / 2 ^ lo))) [
  | inl y ↦
      let ih = shift_from buf_size left (lo + 1) h (omega arith) in
      rw y (record {
        fits = ih.fits;
        limit = ih.limit;
        least = λ t p q. elim (Bool-cases (t == lo)) [
          | inl z ↦ subst (λ k. 0xffff < buf_size / 2 ^ k) (sym ((==_iff t lo).0 z)) (ground arith)
          | inr n ↦ ih.least t (ground arith) q
        ];
      })
  | inr n ↦
      rw n
        (record { fits = ground arith; limit = omega arith; least = λ t p q. absurd (omega arith) })
]

-- For a receive buffer of at most 65535 * 2 ^ 14 bytes, the shift is the least one, at most 14,
-- with which the size of the buffer fits the 16 bits of the window field.
pub wnd_shift_for_lem :
    (buf_size : ℕ)
    → buf_size ≤ max_window
    → (buf_size / 2 ^ wnd_shift_for buf_size ≤ 0xffff)
      × (wnd_shift_for buf_size ≤ max_wnd_shift)
      × ((t : ℕ) → t < wnd_shift_for buf_size → 0xffff < buf_size / 2 ^ t)
unfolding wnd_shift_for
wnd_shift_for_lem buf_size h =
    let l = shift_from buf_size max_wnd_shift 0 h refl in
    (l.fits, l.limit, λ t. l.least t (omega arith))

pow_pos : (s : ℕ) → 0 < 2 ^ s
pow_pos zero = omega arith
pow_pos (suc s) = omega (arith, two-pow-succ s, pow_pos s)

wire_wnd_at {ℓ} :
    {P : Type ℓ} (h : Handler P) (seg : Segment)
    → h.peer_offered_ws ≡ true
    → has_any seg.flags flag_syn ≡ false
    → seg.wnd / 2 ^ h.wnd_shift_local ≤ 0xffff
    → wire_wnd h seg ≡ seg.wnd / 2 ^ h.wnd_shift_local
unfolding wire_wnd
wire_wnd_at h seg o n f =
    let scaled : (h.peer_offered_ws && not (has_any seg.flags flag_syn)) ≡ true = ground arith in
    let small : ltb 0xffff (seg.wnd / 2 ^ h.wnd_shift_local) ≡ false = ground arith in
    rw (scaled, small) refl

-- When both sides offered scaling and the shift is that of the receive buffer, of at most 65535 * 2
-- ^ 14 bytes, the window of a segment other than a SYN, if it is at most the buffer, fits the
-- field; shifted back by the peer it is at most the real window, and less than one unit of the
-- shift below it.
pub wire_wnd_lem {ℓ} :
    {P : Type ℓ} (h : Handler P) (seg : Segment) (buf_size : ℕ)
    → h.peer_offered_ws ≡ true
    → has_any seg.flags flag_syn ≡ false
    → h.wnd_shift_local ≡ wnd_shift_for buf_size
    → buf_size ≤ max_window
    → seg.wnd ≤ buf_size
    → (wire_wnd h seg ≤ 0xffff)
      × (wire_wnd h seg * 2 ^ h.wnd_shift_local ≤ seg.wnd)
      × (seg.wnd < wire_wnd h seg * 2 ^ h.wnd_shift_local + 2 ^ h.wnd_shift_local)
unfolding wire_wnd
wire_wnd_lem h seg buf_size o n e b w =
    let s = h.wnd_shift_local in
    let fits : buf_size / 2 ^ s ≤ 0xffff =
      subst (λ k. buf_size / 2 ^ k ≤ 0xffff) (sym e) (wnd_shift_for_lem buf_size b).0 in
    let pos = pow_pos s in
    let below =
      (div-lt_iff_lt-mul {k = 2 ^ s} {x = buf_size} {y = 2 ^ 16} pos).0 (omega (arith, fits)) in
    let small : seg.wnd / 2 ^ s ≤ 0xffff = omega (
      arith,
      (div-lt_iff_lt-mul {k = 2 ^ s} {x = seg.wnd} {y = 2 ^ 16} pos).1 (omega (arith, below, w)),
    ) in
    let at : wire_wnd h seg ≡ seg.wnd / 2 ^ s = wire_wnd_at h seg o n small in
    (
      omega (arith, at, small),
      omega (arith, ap (λ v. v * 2 ^ s) at, div-mul-le_self seg.wnd (2 ^ s)),
      omega (arith, ap (λ v. v * 2 ^ s) at, lt-div-mul-add {a = seg.wnd} {b = 2 ^ s} pos),
    )
