-- ===== src/Tcp/Control/Send.antt =====
-- tcp/control.go: `validateOutgoingSegment`, `Send` and `PendingSegment`.
use lneto.Base.{
  Ran, ran, panicked, ℕ, ◌-◌, ◌%◌, Bool, ◌&&◌, not, Option, none, some, ltb, ◌==◌, if◌then◌else◌,
  bit_and, bit_or, add8, bit_clear16, u32_mod,
}
use lneto.Tcp.Value.{less_than, in_range, in_window, update_forward}
use lneto.Tcp.Segment.{
  Error, window_too_large, closed_pipe, ack_not_next, zero_window, seq_not_in_window,
  connection_closing, last_not_in_window, flag_fin, flag_syn, flag_rst, flag_ack, flagctl, has_any,
  State, closed, syn_rcvd, syn_sent, established, fin_wait1, fin_wait2, closing, time_wait,
  close_wait, last_ack, ◌is◌, tx_queued_data_open, Segment, seg_len, seg_last, is_first_syn,
  max_window,
}
use lneto.Tcp.Control.Block.{
  ControlBlock, prepare_to_handshake, pending_challenge_ack, trigger_challenge_ack_sent,
  has_pending_retransmit, make_challenge_ack, max_send, retransmit_after_dupacks,
  retransmit_max_queued,
}

-- `isFirst`, `checkSeq`, `zeroWindowOK` and `isRetransmit`
unfoldable pub is_first : ControlBlock → Segment → Bool
is_first tcb seg = tcb.state is closed && is_first_syn seg

unfoldable pub checks_out_seq : ControlBlock → Segment → Bool
unfolding is_first
checks_out_seq tcb seg = not (is_first tcb seg) && not (has_any seg.flags flag_rst)

unfoldable pub snd_zero_window_ok : ControlBlock → Segment → Bool
snd_zero_window_ok tcb seg = tcb.snd.wnd == 0 && seg.datalen == 0 && seg.seq == tcb.snd.nxt

unfoldable pub is_retransmit : ControlBlock → Segment → Bool
unfolding checks_out_seq
is_retransmit tcb seg = checks_out_seq tcb seg && in_range seg.seq tcb.snd.una tcb.snd.nxt

unfoldable pub validate_outgoing : ControlBlock → Segment → Option Error
validate_outgoing tcb seg =
    let check_seq = checks_out_seq tcb seg in
    let zero_ok = snd_zero_window_ok tcb seg in
    let retransmit = is_retransmit tcb seg in
    let out_of_window =
      check_seq && not (in_window seg.seq tcb.snd.nxt tcb.snd.wnd) && not zero_ok in
    if tcb.state is closed && not (is_first tcb seg)
    then some closed_pipe
    else if ltb max_window seg.wnd
    then some window_too_large
    else if has_any seg.flags flag_ack && not (seg.ack == tcb.rcv.nxt)
    then some ack_not_next
    else if out_of_window && not retransmit
    then if tcb.snd.wnd == 0 then some zero_window else some seq_not_in_window
    else if ltb 0 seg.datalen && tcb.state is fin_wait2
    then some connection_closing
    else if check_seq && tcb.snd.wnd == 0 && ltb 0 seg.datalen && seg.seq == tcb.snd.nxt
    then some zero_window
    else if check_seq
        && not (in_window (seg_last seg) tcb.snd.nxt tcb.snd.wnd)
        && not zero_ok
        && not retransmit
    then some last_not_in_window
    else none

-- The `switch` of `Send` on the state.
unfoldable pub send_in : State → ControlBlock → Segment → ControlBlock
send_in closed tcb seg =
    if seg.flags == flag_syn then prepare_to_handshake tcb seg.seq seg.wnd syn_sent else tcb
send_in syn_rcvd tcb seg =
    if has_any seg.flags flag_fin then record tcb { state = fin_wait1 } else tcb
send_in established tcb seg =
    if has_any seg.flags flag_fin then record tcb { state = fin_wait1 } else tcb
send_in closing tcb seg =
    if has_any seg.flags flag_ack then record tcb { state = time_wait } else tcb
send_in close_wait tcb seg =
    if has_any seg.flags flag_fin then record tcb { state = last_ack } else tcb
send_in _ tcb seg = tcb

-- The queue of pending flags. `newPending` is declared and never set, so its `|=` is left out.
unfoldable pub advance_pending : ControlBlock → Segment → ControlBlock
advance_pending tcb seg =
    let left = bit_clear16 tcb.pending0 seg.flags in
    if left == 0
    then record tcb {
      pending0 = bit_clear16 tcb.pending1 (bit_and seg.flags flag_fin);
      pending1 = 0;
    }
    else record tcb { pending0 = left }

unfoldable pub satisfy_challenge : ControlBlock → Segment → ControlBlock
satisfy_challenge tcb seg =
    if pending_challenge_ack tcb && has_any seg.flags flag_ack
    then trigger_challenge_ack_sent tcb
    else tcb

-- A retransmission is counted, up to a limit; any other segment advances snd.NXT.
unfoldable pub advance_next : ControlBlock → Segment → ControlBlock
advance_next tcb seg =
    if less_than seg.seq tcb.snd.nxt
    then if ltb tcb.n_retransmit (255 - retransmit_max_queued - retransmit_after_dupacks)
      then record tcb { n_retransmit = add8 tcb.n_retransmit 1 }
      else tcb
    else record tcb { snd = record (tcb.snd) { nxt = update_forward tcb.snd.nxt (seg_len seg) } }

unfoldable pub send_valid : ControlBlock → Segment → ControlBlock
send_valid tcb seg =
    let tcb1 = advance_pending (send_in tcb.state tcb seg) seg in
    let tcb2 = advance_next (satisfy_challenge tcb1 seg) seg in
    record tcb2 { rcv = record (tcb2.rcv) { wnd = seg.wnd } }

unfoldable pub send : ControlBlock → Segment → ControlBlock × Option Error
send tcb seg = elim (validate_outgoing tcb seg) [
  | some err ↦ (tcb, some err)
  | none ↦ (send_valid tcb seg, none)
]

-- The end of `PendingSegment`, from the cap by the remote MSS on.
unfoldable pub build_pending : ControlBlock → ℕ → Segment
build_pending tcb payload_len =
    let can_send_data = tx_queued_data_open tcb.state in
    let capped =
      if ltb 0 tcb.snd.mss && ltb tcb.snd.mss payload_len then tcb.snd.mss else payload_len in
    let pending = if can_send_data then bit_or tcb.pending0 flag_ack else tcb.pending0 in
    record {
      seq = if has_any pending flag_rst then tcb.rst_ptr else tcb.snd.nxt;
      ack = if has_any pending flag_ack then tcb.rcv.nxt else 0;
      datalen = (if can_send_data then capped else 0) % u32_mod;
      wnd = tcb.rcv.wnd;
      flags = pending;
    }

-- `PendingSegment` once it is neither a challenge ACK nor a fast retransmit.
unfoldable pub plain_pending : ControlBlock → ℕ → Ran (Option Segment)
plain_pending tcb payload_len =
    let len = if tx_queued_data_open tcb.state then payload_len else 0 in
    let max_payload = max_send tcb.snd in
    if tcb.pending0 == 0 && len == 0
    then ran none
    else if ltb max_payload len
    then if max_payload == 0 && tcb.pending0 == 0
      then ran none
      else if ltb tcb.snd.wnd max_payload
      then panicked
      else ran (some (build_pending tcb max_payload))
    else ran (some (build_pending tcb len))

-- The argument is a length, so it is not negative.
unfoldable pub pending_segment : ControlBlock → ℕ → Ran (Option Segment)
pending_segment tcb payload_len =
    if pending_challenge_ack tcb
    then ran (some (make_challenge_ack tcb))
    else if not (has_any tcb.pending0 flagctl) && has_pending_retransmit tcb
    then ran (
        some (record {
          seq = tcb.snd.una;
          ack = tcb.rcv.nxt;
          datalen = payload_len % u32_mod;
          wnd = tcb.rcv.wnd;
          flags = flag_ack;
        }))
    else plain_pending tcb payload_len
