-- ===== src/Tcp/Handler.antt =====
-- tcp/handler.go: the Handler, which joins the control block, the transmit and receive buffers, the
-- reassembly and the options of one connection. The logger is left out, and so are the flags of the
-- option codec, which nothing sets. A transmission policy is a parameter, `Policy`.
pub mod Policy
pub mod Window
pub mod Open
pub mod Receive
pub mod Transmit
pub mod Accept
pub mod OutOfOrder
pub mod InOrder
pub mod Outcome
pub mod Delivery
mod Tests
use lneto.Base.{
  ℕ, zero, suc, ◌+◌, ◌-◌, ◌/◌, ◌^◌, inl, inr, Bool, true, false, not, ◌&&◌, ◌||◌, Option, none,
  some, List, [], ◌∷◌, ◌++◌, ltb, leb, ◌==◌, if◌then◌else◌, length, set, take, drop,
}
use lneto.Tcp.Value.{Size, less_than}
use lneto.Tcp.Segment.{
  closed, listen, syn_sent, syn_rcvd, time_wait, ◌is◌, Segment, flag_syn, flag_ack, has_any,
  max_wnd_shift,
}
use lneto.Tcp.Control.Block.{ControlBlock, has_pending}
use lneto.Internal.Ring.{Ring}
use lneto.Tcp.RingTx.{RingTx, sent_end_seq}
use lneto.Tcp.Reassembly.{Reassembly}
use lneto.Validation.{Validator}
use lneto.Tcp.OptionCodec.{
  OptionCodec, opt_nop, opt_max_segment_size, opt_window_scale, put_option, put_option16,
}
use lneto.Internal.Ring
use lneto.Tcp.RingTx
use lneto.Tcp.Segment
use lneto.Tcp.Frame
use lneto.Tcp.OptionCodec
use lneto.Tcp.Reassembly

-- The errors: those of the handler, and those that its parts return. `errBufferTooSmall` is
-- `short_buffer`, and `frame` has the errors that the validation found.
pub data Error : Type 0 where
  net_closed eof mismatch buffer_full short_buffer invalid_config : Error
  zero_destination zero_source connection_closing need_closed_tcb_to_open : Error
  frame : List Frame.Error → Error
  scb : Segment.Error → Error
  ring : Ring.Error → Error
  tx : RingTx.Error → Error

-- `policy` is the state of the policy, or `none` for no policy. `nRetransmit` is never used.
pub record Handler {ℓ} (P : Type ℓ) : Type ℓ where
  pub connid : ℕ
  pub scb : ControlBlock
  pub buf_tx : RingTx
  pub buf_rx : Ring
  pub validator : Validator Frame.Error
  pub local_port : ℕ
  pub remote_port : ℕ
  pub wnd_shift_local : ℕ
  pub wnd_shift_peer : ℕ
  pub peer_offered_ws : Bool
  pub reasm : Reassembly
  pub policy : Option P
  pub closing : Bool
  pub shutdown_rx : Bool
  pub requeue_control : Bool

abbrev pub optcodec : OptionCodec
optcodec = record { skip_size_validation = false; skip_obsolete = false }

module _ {ℓ} {P : Type ℓ} where
  unfoldable pub awaiting_syn_response : Handler P → Bool
  awaiting_syn_response h = not (h.remote_port == 0) && h.scb.state is syn_sent

  unfoldable pub is_awaiting_control : Handler P → Bool
  unfolding awaiting_syn_response
  is_awaiting_control h = awaiting_syn_response h || h.scb.state is syn_rcvd

  unfoldable pub requeue : Handler P → Handler P
  requeue h = if is_awaiting_control h then record h { requeue_control = true } else h

  unfoldable pub awaiting_syn_ack : Handler P → Bool
  awaiting_syn_ack h = h.remote_port == 0 && h.scb.state is listen

  unfoldable pub awaiting_syn_send : Handler P → Bool
  awaiting_syn_send h = not (h.remote_port == 0) && h.scb.state is closed

  unfoldable pub is_tx_over : Handler P → Bool
  unfolding awaiting_syn_send
  is_tx_over h =
      h.scb.state is closed && not (awaiting_syn_send h)
      || h.scb.state is time_wait && not (has_pending h.scb)

  -- Whether the next segment is a SYN, and whether it is acknowledging.
  unfoldable pub next_segment_syn : Handler P → Bool × Bool
  unfolding awaiting_syn_send
  next_segment_syn h =
      if awaiting_syn_send h || h.requeue_control && h.scb.state is syn_sent
      then (true, false)
      else if h.requeue_control && h.scb.state is syn_rcvd
      then (true, true)
      else (has_any h.scb.pending0 flag_syn, has_any h.scb.pending0 flag_ack)

  unfoldable pub next_segment_is_retransmit : Handler P → Bool
  unfolding sent_end_seq
  next_segment_is_retransmit h = elim (sent_end_seq h.buf_tx) [
    | none ↦ false
    | some end_seq ↦ less_than h.scb.snd.nxt end_seq
  ]

  -- Sizes of buffers are below `2 ^ 32`.
  unfoldable pub recv_window : Handler P → Size
  recv_window h =
      let free = Ring.free h.buf_rx in
      let ooo = Reassembly.buffered_bytes h.reasm in
      if not (Reassembly.enabled h.reasm) then free else if ltb ooo free then free - ooo else 0

  -- The window of a segment as it goes on the wire.
  unfoldable pub wire_wnd : Handler P → Segment → Size
  wire_wnd h seg =
      let wnd =
        if h.peer_offered_ws && not (has_any seg.flags flag_syn)
        then seg.wnd / 2 ^ h.wnd_shift_local
        else seg.wnd in
      if ltb 0xffff wnd then 0xffff else wnd

  -- The bytes and the size, with the errors of the codec dropped as the source does.
  unfoldable pub put_syn_options : Handler P → List ℕ → ℕ → Bool → List ℕ × ℕ
  unfolding put_option16
  put_syn_options h b mss is_synack =
      let b1 : List ℕ = elim (put_option16 b opt_max_segment_size mss) [
        | inl (b1, n) ↦ b1
        | inr e ↦ b
      ] in
      let b2 = set b1 4 opt_nop in
      let b3 : List ℕ = elim (put_option (drop 5 b2) opt_window_scale (h.wnd_shift_local ∷ [])) [
        | inl (tail, n) ↦ take 5 b2 ++ tail
        | inr e ↦ b2
      ] in
      if (not is_synack || h.peer_offered_ws) && leb 8 (length b) then (b3, 2) else (b1, 1)

-- The loop over the shift, with the steps that are left below the limit.
unfoldable pub wnd_shift_from : ℕ → ℕ → ℕ → ℕ
wnd_shift_from buf_size zero shift = shift
wnd_shift_from buf_size (suc left) shift =
    if ltb 0xffff (buf_size / 2 ^ shift) then wnd_shift_from buf_size left (shift + 1) else shift

unfoldable pub wnd_shift_for : ℕ → ℕ
unfolding wnd_shift_from
wnd_shift_for buf_size = wnd_shift_from buf_size max_wnd_shift 0
