-- ===== src/Tcp/Frame/Tests.antt =====
-- tcp/frame.go at concrete inputs.
use lneto.Base.{
  ℕ, ◌-◌, ◌^◌, ◌≡◌, refl, false, List, [], ◌∷◌, ◌++◌, arith, length, drop, replicate, ran,
}
use lneto.Tcp.Segment.{Segment, mask_flags}
use lneto.Validation.{Validator, err_pop, add_error}
use lneto.Tcp.Frame.{
  Error, zero_source, Frame, uint16, put_uint16, source_port, set_source_port, destination_port,
  set_destination_port, header_length, urgent_ptr, set_urgent_ptr, segment, set_segment, options,
  payload, validate_except_crc,
}
use lneto.Tcp.Frame.Header.{set_segment-segment}
use lneto.Tcp.Frame.Validate.{IsSound, validate_except_crc_iff}

abbrev blank : Frame
blank = record { buf = replicate 22 7 }

abbrev some_segment : Segment
some_segment = record { seq = 2 ^ 32 - 2; ack = 70000; wnd = 500; datalen = 2; flags = 24 }

set_segment-segment_example :
    (t : Frame) × (set_segment (set_destination_port (set_source_port blank 80) 4000) some_segment 5
      ≡ ran t)
    × (let f = set_urgent_ptr t 0 in
        (length f.buf ≡ 22)
        × (source_port f ≡ 80)
        × (destination_port f ≡ 4000)
        × (header_length f ≡ 20)
        × (urgent_ptr f ≡ 0)
        × (segment f 2 ≡ ran (record some_segment { flags = mask_flags 24 })))
set_segment-segment_example =
    set_segment-segment blank 80 4000 some_segment 5 0 (omega arith) (omega arith) (omega arith)
      (omega arith) (omega arith) (omega arith) (omega arith) (omega arith) (omega arith)

-- Ports 80 and 1, an offset of 6 words, one word of options and two bytes.
abbrev with_options : Frame
with_options = record {
  buf =
      0 ∷ 80 ∷ 0 ∷ 1 ∷ 0 ∷ 0 ∷ 0 ∷ 0 ∷ 0 ∷ 0 ∷ 0 ∷ 0 ∷ 96 ∷ 0 ∷ 0 ∷ 0 ∷ 0 ∷ 0 ∷ 0 ∷ 0 ∷ 1 ∷ 1 ∷ 1
      ∷ 0 ∷ 9 ∷ 8 ∷ [];
}

abbrev no_errors : Validator Error
no_errors = record { accum = []; allow_multi_errors = false }

no_source :
    (err_pop (validate_except_crc (set_source_port with_options 0) no_errors)).0 ≡ zero_source ∷ []
unfolding err_pop validate_except_crc set_source_port uint16 put_uint16 add_error
no_source = refl

validate_except_crc_iff_example :
    IsSound with_options
    × ((o : List ℕ) × (p : List ℕ) × (options with_options ≡ ran o)
        × (payload with_options ≡ ran p)
        × (o ++ p ≡ drop 20 with_options.buf))
unfolding err_pop validate_except_crc uint16
validate_except_crc_iff_example = (validate_except_crc_iff with_options no_errors refl).1 refl
