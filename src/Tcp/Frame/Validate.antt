-- ===== src/Tcp/Frame/Validate.antt =====
-- tcp/frame.go: a frame that was validated has its parts.
use lneto.Base.{
  ℕ, ◌-◌, ◌≤◌, ◌≡◌, refl, sym, ap, ◌∙◌, ◌≢◌, inl, inr, Bool, true, false, not, ◌&&◌, ◌||◌, List, [],
  ◌∷◌, ◌++◌, arith, ltb, ◌==◌, if◌then◌else◌, Bool-cases, length, take, drop, length-append,
  take-append-drop, length-take, drop-append, ran,
}
use lneto.Validation.{Validator, add_error, err_pop}
use lneto.Tcp.Frame.{
  Error, truncated_frame, invalid_length_field, zero_destination, zero_source, Frame,
  size_header_tcp, source_port, destination_port, header_length, payload, options, validate_size,
  validate_except_crc,
}

-- What the validation checks.
pub record IsSound (tfrm : Frame) : Type 0 where
  pub offset_min : size_header_tcp ≤ header_length tfrm
  pub offset_max : header_length tfrm ≤ length tfrm.buf
  pub to_port : (destination_port tfrm == 0) ≡ false
  pub from_port : (source_port tfrm == 0) ≡ false

not_empty : (xs : List Error) (e : Error) → xs ++ (e ∷ []) ≢ []
not_empty xs e h = omega (arith, length-append xs (e ∷ []), ap length h)

add_if :
    (b : Bool) (v : Validator Error) (e : Error)
    → (if b then add_error v e else v).accum ≡ []
    → (b ≡ false) × (v.accum ≡ [])
unfolding add_error
add_if false v e h = (refl, h)
add_if true v e h = elim (Bool-cases (not (length v.accum == 0) && not v.allow_multi_errors)) [
  | inl y ↦ ground (arith, ap length (rw y at h))
  | inr n ↦ absurd (not_empty v.accum e (rw n at h))
]

validated :
    (tfrm : Frame) (v : Validator Error) → (validate_except_crc tfrm v).accum ≡ [] → IsSound tfrm
unfolding validate_except_crc validate_size
validated tfrm v h =
    let off = header_length tfrm in
    let v1 = if ltb off size_header_tcp then add_error v invalid_length_field else v in
    let v2 = if ltb (length tfrm.buf) off then add_error v1 truncated_frame else v1 in
    let v3 = if destination_port tfrm == 0 then add_error v2 zero_destination else v2 in
    let (s, h3) = add_if (source_port tfrm == 0) v3 zero_source h in
    let (d, h2) = add_if (destination_port tfrm == 0) v2 zero_destination h3 in
    let (m, h1) = add_if (ltb (length tfrm.buf) off) v1 truncated_frame h2 in
    let (a, h0) = add_if (ltb off size_header_tcp) v invalid_length_field h1 in
    record { offset_min = ground arith; offset_max = ground arith; to_port = d; from_port = s }

sound_passes : (tfrm : Frame) (v : Validator Error) → IsSound tfrm → validate_except_crc tfrm v ≡ v
unfolding validate_except_crc validate_size
sound_passes tfrm v s = ground (arith, s.offset_min, s.offset_max, s.to_port, s.from_port)

-- Validation with a validator that holds no error pops no error exactly when the header length is
-- at least 20 and within the buffer and no port is zero; then neither `Options` nor `Payload`
-- panics, and together they are the buffer after its fixed header.
pub validate_except_crc_iff :
    (tfrm : Frame) (v : Validator Error)
    → v.accum ≡ []
    → (IsSound tfrm → (err_pop (validate_except_crc tfrm v)).0 ≡ [])
      × ((err_pop (validate_except_crc tfrm v)).0 ≡ []
          → IsSound tfrm
            × ((o : List ℕ) × (p : List ℕ) × (options tfrm ≡ ran o)
                × (payload tfrm ≡ ran p)
                × (o ++ p ≡ drop size_header_tcp tfrm.buf)))
unfolding err_pop options payload
validate_except_crc_iff tfrm v e = (
  (λ s. ap (λ v. v.accum) (sound_passes tfrm v s) ∙ e),
  λ h.
      let s = validated tfrm v h in
      let off = header_length tfrm in
      let a = s.offset_min in
      let b = s.offset_max in
      let c : (ltb off size_header_tcp || ltb (length tfrm.buf) off) ≡ false = ground arith in
      let d : ltb (length tfrm.buf) off ≡ false = ground arith in
      let whole =
        ap (drop size_header_tcp) (sym (take-append-drop off tfrm.buf))
        ∙ drop-append size_header_tcp (take off tfrm.buf) (drop off tfrm.buf)
        ∙ ap (λ k. drop size_header_tcp (take off tfrm.buf) ++ drop k (drop off tfrm.buf))
            {x = size_header_tcp - length (take off tfrm.buf)} {y = 0}
            (omega (arith, length-take off tfrm.buf)) in
      (
        s,
        (
          drop size_header_tcp (take off tfrm.buf),
          drop off tfrm.buf,
          rw c refl,
          rw d refl,
          sym whole,
        ),
      ),
)
