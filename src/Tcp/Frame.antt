-- ===== src/Tcp/Frame.antt =====
-- tcp/frame.go: the fixed header of a TCP frame, over its bytes. The methods read and write in bounds
-- for the buffers of 20 bytes or more that `NewFrame` takes.
mod Bytes
pub mod Header
pub mod Validate
mod Tests
use lneto.Base.{
  ℕ, ◌+◌, ◌-◌, ◌*◌, ◌/◌, ◌%◌, ◌^◌, ◌⊎◌, inl, inr, ◌||◌, List, ◌++◌, ltb, leb, ◌==◌, if◌then◌else◌,
  length, set, get_or, take, drop, replicate, Ran, ran, panicked,
}
use lneto.Tcp.Value.{Value}
use lneto.Tcp.Segment.{Segment, Flags, mask_flags}
use lneto.Validation.{Validator, add_error}

pub data Error : Type 0 where
  truncated_frame invalid_length_field zero_destination zero_source : Error

abbrev pub size_header_tcp : ℕ
size_header_tcp = 20

pub record Frame : Type 0 where
  pub buf : List ℕ

unfoldable pub new_frame : List ℕ → Frame ⊎ Error
new_frame buf =
    if ltb (length buf) size_header_tcp then inr truncated_frame else inl (record { buf = buf })

-- `binary.BigEndian.Uint16(buf[i:i+2])`, and `PutUint16`, `Uint32` and `PutUint32`.
unfoldable pub uint16 : List ℕ → ℕ → ℕ
uint16 buf i = get_or buf i 0 * 2 ^ 8 + get_or buf (i + 1) 0

unfoldable pub put_uint16 : List ℕ → ℕ → ℕ → List ℕ
put_uint16 buf i v = set (set buf i (v / 2 ^ 8 % 2 ^ 8)) (i + 1) (v % 2 ^ 8)

unfoldable pub uint32 : List ℕ → ℕ → ℕ
unfolding uint16
uint32 buf i = uint16 buf i * 2 ^ 16 + uint16 buf (i + 2)

unfoldable pub put_uint32 : List ℕ → ℕ → ℕ → List ℕ
unfolding put_uint16
put_uint32 buf i v = put_uint16 (put_uint16 buf i (v / 2 ^ 16 % 2 ^ 16)) (i + 2) (v % 2 ^ 16)

unfoldable pub source_port : Frame → ℕ
source_port tfrm = uint16 tfrm.buf 0

unfoldable pub set_source_port : Frame → ℕ → Frame
set_source_port tfrm src = record { buf = put_uint16 tfrm.buf 0 src }

unfoldable pub destination_port : Frame → ℕ
destination_port tfrm = uint16 tfrm.buf 2

unfoldable pub set_destination_port : Frame → ℕ → Frame
set_destination_port tfrm dst = record { buf = put_uint16 tfrm.buf 2 dst }

unfoldable pub seq : Frame → Value
seq tfrm = uint32 tfrm.buf 4

unfoldable pub set_seq : Frame → Value → Frame
set_seq tfrm v = record { buf = put_uint32 tfrm.buf 4 v }

unfoldable pub ack : Frame → Value
ack tfrm = uint32 tfrm.buf 8

unfoldable pub set_ack : Frame → Value → Frame
set_ack tfrm v = record { buf = put_uint32 tfrm.buf 8 v }

unfoldable pub offset_and_flags : Frame → ℕ × Flags
offset_and_flags tfrm = let v = uint16 tfrm.buf 12 in (v / 2 ^ 12, mask_flags v)

-- `uint16(offset)<<12 | uint16(flags.Mask())`, where the second has 9 bits.
unfoldable pub set_offset_and_flags : Frame → ℕ → Flags → Frame
set_offset_and_flags tfrm offset flags = record {
  buf = put_uint16 tfrm.buf 12 (offset * 2 ^ 12 % 2 ^ 16 + mask_flags flags);
}

unfoldable pub header_length : Frame → ℕ
unfolding offset_and_flags
header_length tfrm = 4 * (offset_and_flags tfrm).0

unfoldable pub window_size : Frame → ℕ
window_size tfrm = uint16 tfrm.buf 14

unfoldable pub set_window_size : Frame → ℕ → Frame
set_window_size tfrm v = record { buf = put_uint16 tfrm.buf 14 v }

unfoldable pub crc : Frame → ℕ
crc tfrm = uint16 tfrm.buf 16

unfoldable pub set_crc : Frame → ℕ → Frame
set_crc tfrm checksum = record { buf = put_uint16 tfrm.buf 16 checksum }

unfoldable pub urgent_ptr : Frame → ℕ
urgent_ptr tfrm = uint16 tfrm.buf 18

unfoldable pub set_urgent_ptr : Frame → ℕ → Frame
set_urgent_ptr tfrm up = record { buf = put_uint16 tfrm.buf 18 up }

-- `buf[header_length:]` panics past the end.
unfoldable pub payload : Frame → Ran (List ℕ)
unfolding header_length
payload tfrm =
    let off = header_length tfrm in
    if ltb (length tfrm.buf) off then panicked else ran (drop off tfrm.buf)

unfoldable pub options : Frame → Ran (List ℕ)
unfolding header_length
options tfrm =
    let off = header_length tfrm in
    if ltb off size_header_tcp || ltb (length tfrm.buf) off
    then panicked
    else ran (drop size_header_tcp (take off tfrm.buf))

unfoldable pub segment : Frame → ℕ → Ran Segment
unfolding seq ack window_size
segment tfrm payload_size =
    if ltb (2 ^ 31 - 1) payload_size
    then panicked
    else ran (record {
      seq = seq tfrm;
      ack = ack tfrm;
      datalen = payload_size;
      wnd = window_size tfrm;
      flags = mask_flags (uint16 tfrm.buf 12);
    })

unfoldable pub set_segment : Frame → Segment → ℕ → Ran Frame
unfolding set_seq set_ack set_offset_and_flags set_window_size
set_segment tfrm seg offset =
    if leb (2 ^ 4) offset || ltb (2 ^ 16 - 1) seg.wnd
    then panicked
    else ran (
        set_window_size
          (set_offset_and_flags (set_ack (set_seq tfrm seg.seq) seg.ack) offset seg.flags) seg.wnd)

unfoldable pub clear_header : Frame → Frame
clear_header tfrm = record { buf = replicate size_header_tcp 0 ++ drop size_header_tcp tfrm.buf }

unfoldable pub validate_size : Frame → Validator Error → Validator Error
unfolding header_length
validate_size tfrm v =
    let off = header_length tfrm in
    let v1 = if ltb off size_header_tcp then add_error v invalid_length_field else v in
    if ltb (length tfrm.buf) off then add_error v1 truncated_frame else v1

unfoldable pub validate_except_crc : Frame → Validator Error → Validator Error
unfolding validate_size destination_port source_port
validate_except_crc tfrm v =
    let v1 = validate_size tfrm v in
    let v2 = if destination_port tfrm == 0 then add_error v1 zero_destination else v1 in
    if source_port tfrm == 0 then add_error v2 zero_source else v2
