-- ===== src/Tcp/Frame/Header.antt =====
-- tcp/frame.go: a header that was written is read back, and a frame that was validated has its parts.
use lneto.Base.{
  ℕ, ◌+◌, ◌-◌, ◌*◌, ◌/◌, ◌%◌, ◌^◌, ◌≤◌, ◌<◌, ◌≡◌, refl, sym, ap, ◌∙◌, subst, inl, inr, true, false,
  ◌||◌, Option, none, some, List, [], ◌∷◌, arith, ltb, leb, ◌==◌, if◌then◌else◌, bit_and,
  Bool-cases, ==_iff, IsU16, IsU32, length, ran, bit_and_511,
}
use lneto.Tcp.Segment.{Segment, mask_flags}
use lneto.Tcp.Frame.{
  Frame, size_header_tcp, uint16, put_uint16, uint32, put_uint32, source_port, set_source_port,
  destination_port, set_destination_port, seq, set_seq, ack, set_ack, offset_and_flags,
  set_offset_and_flags, header_length, window_size, set_window_size, urgent_ptr, set_urgent_ptr,
  segment, set_segment,
}
use lneto.Tcp.Frame.Bytes.{length-put_uint16, uint16-put_uint16, uint16-put_uint16_apart}

-- Words written one after the other, the last one first in the list.
written : List (ℕ × ℕ) → List ℕ → List ℕ
written [] buf = buf
written ((i, w) ∷ ws) buf = put_uint16 (written ws buf) i w

-- What was written last at an index, if all that was written after it is apart from it.
find : List (ℕ × ℕ) → ℕ → Option ℕ
find [] j = none
find ((i, w) ∷ ws) j =
    if i == j then some w else if ltb (i + 1) j || ltb (j + 1) i then find ws j else none

length-written : (ws : List (ℕ × ℕ)) (buf : List ℕ) → length (written ws buf) ≡ length buf
unfolding written
length-written [] buf = refl
length-written ((i, w) ∷ ws) buf = length-put_uint16 (written ws buf) i w ∙ length-written ws buf

uint16-written :
    (ws : List (ℕ × ℕ)) (buf : List ℕ) (j v : ℕ)
    → find ws j ≡ some v
    → IsU16 v
    → j + 1 < length buf
    → uint16 (written ws buf) j ≡ v
unfolding written find
uint16-written [] buf j v e u h = absurd (ground (arith, e))
uint16-written ((i, w) ∷ ws) buf j v e u h = elim (Bool-cases (i == j)) [
  | inl y ↦
      let s = (==_iff i j).0 y in
      let g : w ≡ v = ground arith in
      subst (λ k. uint16 (put_uint16 (written ws buf) k w) j ≡ v) (sym s)
        (subst (λ x. uint16 (put_uint16 (written ws buf) j x) j ≡ v) (sym g)
          (uint16-put_uint16 (written ws buf) j v (omega (arith, length-written ws buf)) u))
  | inr n ↦
      let ih = λ (f : find ws j ≡ some v). uint16-written ws buf j v f u h in
      elim (Bool-cases (ltb (i + 1) j)) [
        | inl y ↦
            uint16-put_uint16_apart (written ws buf) i j w (inl (ground arith))
            ∙ ih (rw (n, y) at e)
        | inr m ↦
            let a : ltb (j + 1) i ≡ true = ground arith in
            uint16-put_uint16_apart (written ws buf) i j w (inr (ground arith))
            ∙ ih (rw (n, m, a) at e)
      ]
]

-- The words that a header is written in.
abbrev header_words : ℕ → ℕ → Segment → ℕ → ℕ → List (ℕ × ℕ)
header_words src dst seg offset up =
    (18, up)
    ∷ (14, seg.wnd)
    ∷ (12, offset * 2 ^ 12 % 2 ^ 16 + mask_flags seg.flags)
    ∷ (10, seg.ack % 2 ^ 16)
    ∷ (8, seg.ack / 2 ^ 16 % 2 ^ 16)
    ∷ (6, seg.seq % 2 ^ 16)
    ∷ (4, seg.seq / 2 ^ 16 % 2 ^ 16)
    ∷ (2, dst)
    ∷ (0, src)
    ∷ []

-- The word of the offset and the flags, taken apart.
offset_word :
    (offset flags : ℕ)
    → offset < 2 ^ 4
    → let w = offset * 2 ^ 12 % 2 ^ 16 + mask_flags flags in
      (w < 2 ^ 16) × (w / 2 ^ 12 ≡ offset) × (mask_flags w ≡ mask_flags flags)
unfolding mask_flags
offset_word offset flags h =
    let w = offset * 2 ^ 12 % 2 ^ 16 + bit_and flags 0x1ff in
    let f = bit_and_511 flags in (omega arith, omega arith, omega (arith, bit_and_511 w))

segment_read :
    (t : Frame) (seg : Segment) (flags : ℕ)
    → seq t ≡ seg.seq
    → ack t ≡ seg.ack
    → window_size t ≡ seg.wnd
    → mask_flags (uint16 t.buf 12) ≡ flags
    → seg.datalen < 2 ^ 31
    → segment t seg.datalen ≡ ran (record seg { flags = flags })
unfolding segment
segment_read t seg flags q a w f n =
    let fits : ltb (2 ^ 31 - 1) seg.datalen ≡ false = ground arith in rw (fits, q, a, w, f) refl

-- The header that is written for a segment that fits its fields, on a buffer of 20 bytes or more,
-- with an offset below 16: no call panics, the length of the buffer stays, and ports, header
-- length, urgent pointer and segment (with the flags masked) are read back as they were written.
pub set_segment-segment :
    (tfrm : Frame) (src dst : ℕ) (seg : Segment) (offset up : ℕ)
    → size_header_tcp ≤ length tfrm.buf
    → IsU16 src
    → IsU16 dst
    → IsU32 seg.seq
    → IsU32 seg.ack
    → IsU16 seg.wnd
    → seg.datalen < 2 ^ 31
    → offset < 2 ^ 4
    → IsU16 up
    → (t : Frame) × (set_segment (set_destination_port (set_source_port tfrm src) dst) seg offset
        ≡ ran t)
      × (let f = set_urgent_ptr t up in
          (length f.buf ≡ length tfrm.buf)
          × (source_port f ≡ src)
          × (destination_port f ≡ dst)
          × (header_length f ≡ 4 * offset)
          × (urgent_ptr f ≡ up)
          × (segment f seg.datalen ≡ ran (record seg { flags = mask_flags seg.flags })))
unfolding written find uint32 put_uint32 offset_and_flags seq ack window_size set_seq set_ack
    set_window_size set_offset_and_flags set_segment set_destination_port set_source_port
    set_urgent_ptr source_port destination_port header_length urgent_ptr segment
set_segment-segment tfrm src dst seg offset up l s d q a w n o u =
    let ws = header_words src dst seg offset up in
    let buf = tfrm.buf in
    let (p, p', p'') = offset_word offset seg.flags o in
    let at = λ (j v : ℕ) (e : find ws j ≡ some v) (v_ok : IsU16 v) (j_ok : j + 1 < 20).
      uint16-written ws buf j v e v_ok (omega arith) in
    let word = offset * 2 ^ 12 % 2 ^ 16 + mask_flags seg.flags in
    let t : Frame = record {
      buf =
          put_uint16
            (put_uint16
              (put_uint32 (put_uint32 (put_uint16 (put_uint16 buf 0 src) 2 dst) 4 seg.seq) 8
                seg.ack)
              12 word)
            14 seg.wnd;
    } in
    let fits : (leb (2 ^ 4) offset || ltb (2 ^ 16 - 1) seg.wnd) ≡ false = ground arith in
    (
      t,
      rw fits refl,
      (
        length-written ws buf,
        at 0 src refl s (omega arith),
        at 2 dst refl d (omega arith),
        omega (arith, at 12 word refl p (omega arith)),
        at 18 up refl u (omega arith),
        segment_read (set_urgent_ptr t up) seg (mask_flags seg.flags)
            (omega (
              arith,
              at 4 (seg.seq / 2 ^ 16 % 2 ^ 16) refl (omega arith) (omega arith),
              at 6 (seg.seq % 2 ^ 16) refl (omega arith) (omega arith),
            ))
            (omega (
              arith,
              at 8 (seg.ack / 2 ^ 16 % 2 ^ 16) refl (omega arith) (omega arith),
              at 10 (seg.ack % 2 ^ 16) refl (omega arith) (omega arith),
            ))
            (at 14 seg.wnd refl w (omega arith))
            (ap mask_flags (at 12 word refl p (omega arith)) ∙ p'') n,
      ),
    )
