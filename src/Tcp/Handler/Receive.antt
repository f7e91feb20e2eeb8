-- ===== src/Tcp/Handler/Receive.antt =====
-- tcp/handler.go: the receive path of a Handler, and reading from it.
use lneto.Base.{
  ℕ, ◌+◌, ◌*◌, ◌^◌, min, Bool, true, false, not, ◌&&◌, ◌||◌, Option, none, some, List, [], ◌∷◌, ltb,
  ◌==◌, if◌then◌else◌, length, Ran, ran, panicked,
}
use lneto.Tcp.Value.{Value, in_window, update_forward}
use lneto.Tcp.Segment.{
  fin_wait1, fin_wait2, ◌is◌, Segment, flag_syn, flag_ack, flagctl, has_any, seg_last,
  max_wnd_shift,
}
use lneto.Tcp.Control.Block.{queue_rst}
use lneto.Tcp.Control.Incoming.{queue_ack}
use lneto.Internal.Ring.{Ring}
use lneto.Tcp.RingTx.{recv_acked}
use lneto.Tcp.Frame.{Frame, source_port, options}
use lneto.Tcp.OptionCodec.{opt_max_segment_size, opt_window_scale, for_each_option}
use lneto.Tcp.Reassembly.{store, reassemble, clear}
use lneto.Tcp.Handler.{Error, ring, Handler, optcodec}
use lneto.Internal.Ring
use lneto.Tcp.OptionCodec

module _ {ℓ} {P : Type ℓ} where
  -- The end of `handleOutOfOrder`, with the outcome of `store`.
  unfoldable pub handle_out_of_order : Handler P → Segment → List ℕ → Handler P × Bool
  handle_out_of_order h seg pl =
      let rcv_nxt = h.scb.rcv.nxt in
      let rcv_wnd = h.scb.rcv.wnd in
      let (reasm', rx', ok) = store h.reasm h.buf_rx rcv_nxt seg.seq pl in
      let stored = record h { reasm = reasm'; buf_rx = rx' } in
      if h.shutdown_rx || seg.datalen == 0 || has_any seg.flags flagctl || seg.seq == rcv_nxt
      then (h, false)
      else if not (in_window seg.seq rcv_nxt rcv_wnd)
          || not (in_window (seg_last seg) rcv_nxt rcv_wnd)
      then (h, false)
      else if not ok
      then (stored, false)
      else (record stored { scb = queue_ack h.scb }, true)

  unfoldable pub deliver_reassembled : Handler P → Handler P
  deliver_reassembled h =
      let (reasm', rx', delivered) = reassemble h.reasm h.buf_rx h.scb.rcv.nxt in
      let h1 = record h { reasm = reasm'; buf_rx = rx' } in
      let nxt = update_forward h.scb.rcv.nxt delivered in
      if length h.reasm.held == 0
      then h
      else if h.shutdown_rx
      then record h { reasm = clear h.reasm }
      else if ltb 0 delivered
      then record h1 { scb = queue_ack (record (h.scb) { rcv = record (h.scb.rcv) { nxt = nxt } }) }
      else h1

  -- The callback that reads the options of a SYN.
  unfoldable pub syn_option : Handler P → ℕ → List ℕ → Handler P × Option OptionCodec.Error
  syn_option h kind (b0 ∷ b1 ∷ []) =
      let mss = b0 * 2 ^ 8 + b1 in
      if kind == opt_max_segment_size && ltb 0 mss
      then (record h { scb = record (h.scb) { snd = record (h.scb.snd) { mss = mss } } }, none)
      else (h, none)
  syn_option h kind (b0 ∷ []) =
      if kind == opt_window_scale
      then (record h { peer_offered_ws = true; wnd_shift_peer = min b0 max_wnd_shift }, none)
      else (h, none)
  syn_option h kind _ = (h, none)

  -- Fuel for one pass per byte and one more is enough, by `for_each_option_total`.
  unfoldable pub read_syn_options : Handler P → List ℕ → Handler P
  unfolding syn_option
  read_syn_options h opts = elim (for_each_option syn_option (length opts + 1) optcodec opts h) [
    | none ↦ h
    | some (h', err) ↦ h'
  ]

  -- The end of `Recv`: acknowledged bytes are freed, and a SYN is looked into.
  unfoldable pub recv_end : Handler P → Frame → Segment → Value → Ran (Handler P × Option Error)
  unfolding read_syn_options
  recv_end h tfrm seg prev_una =
      let h1 =
        if has_any seg.flags flag_ack && not (seg.ack == prev_una)
        then record h { buf_tx = (recv_acked h.buf_tx seg.ack).0 }
        else h in
      if has_any seg.flags flag_syn
      then elim (options tfrm) [
        | panicked ↦ panicked
        | ran opts ↦
            let h2 = read_syn_options h1 opts in
            ran (
              if h2.remote_port == 0 then record h2 { remote_port = source_port tfrm } else h2,
              none,
            )
      ]
      else ran (h1, none)

  -- The data of a segment that the control block accepted.
  unfoldable pub recv_data :
      Handler P → Frame → Segment → List ℕ → Value → Ran (Handler P × Option Error)
  unfolding recv_end deliver_reassembled
  recv_data h tfrm seg pl prev_una =
      if not (seg.datalen == 0)
        && h.shutdown_rx
        && (h.scb.state is fin_wait1 || h.scb.state is fin_wait2)
      then ran (record h { scb = queue_rst h.scb seg.ack }, none)
      else if not (seg.datalen == 0) && not h.shutdown_rx
      then elim (Ring.write h.buf_rx pl) [
        | panicked ↦ panicked
        | ran (rx', n, some err) ↦ ran (record h { buf_rx = rx' }, some (ring err))
        | ran (rx', n, none) ↦
            recv_end (deliver_reassembled (record h { buf_rx = rx' })) tfrm seg prev_una
      ]
      else if not (seg.datalen == 0)
      then recv_end (deliver_reassembled h) tfrm seg prev_una
      else recv_end h tfrm seg prev_una
