-- ===== src/Tcp/Control/Incoming.antt =====
-- tcp/control.go: admission of a received segment (`validateIncomingSegment`, `handleRST`).
use lneto.Base.{
  Bool, true, false, ◌&&◌, ◌||◌, not, Option, none, some, ltb, ◌==◌, if◌then◌else◌, bit_or, bit_xor,
  add32,
}
use lneto.Tcp.Value.{Value, less_than, less_than_eq, in_window}
use lneto.Tcp.Segment.{
  Error, drop_segment, window_overflow, seq_not_in_window, zero_window, last_not_in_window,
  require_sequential, closed_pipe, net_closed, flag_fin, flag_syn, flag_rst, flag_ack, has_all,
  has_any, State, closed, listen, syn_rcvd, syn_sent, established, ◌is◌, is_preestablished, Segment,
  seg_last, max_window,
}
use lneto.Tcp.Control.Block.{
  ControlBlock, abort, reset_snd, reset_rcv, trigger_challenge_ack_emit, too_many_challenge_acks,
}

-- `zeroWindowOK`
unfoldable pub rcv_zero_window_ok : ControlBlock → Segment → Bool
rcv_zero_window_ok tcb seg = tcb.rcv.wnd == 0 && seg.datalen == 0 && seg.seq == tcb.rcv.nxt

-- `checkSEQ`
unfoldable pub checks_seq : ControlBlock → Segment → Bool
checks_seq tcb seg =
    (not (has_any seg.flags flag_syn) || not (is_preestablished tcb.state))
    && not (tcb.state is listen)

-- The first `switch`: the RFC 9293 §3.4 acceptability tests.
unfoldable pub incoming_error : ControlBlock → Segment → Option Error
incoming_error tcb seg =
    let check_seq = checks_seq tcb seg in
    let zero_ok = rcv_zero_window_ok tcb seg in
    if ltb max_window seg.wnd
    then some window_overflow
    else if tcb.state is closed
    then some closed_pipe
    else if check_seq && tcb.rcv.wnd == 0 && ltb 0 seg.datalen && seg.seq == tcb.rcv.nxt
    then some zero_window
    else if check_seq && not (in_window seg.seq tcb.rcv.nxt tcb.rcv.wnd) && not zero_ok
    then some seq_not_in_window
    else if check_seq && not (in_window (seg_last seg) tcb.rcv.nxt tcb.rcv.wnd) && not zero_ok
    then some last_not_in_window
    else if check_seq && not (has_any seg.flags flag_rst) && not (seg.seq == tcb.rcv.nxt)
    then some require_sequential
    else none

-- The errors that are answered with a challenge ACK.
unfoldable pub is_challenged : Error → Bool
is_challenged seq_not_in_window = true
is_challenged last_not_in_window = true
is_challenged require_sequential = true
is_challenged zero_window = true
is_challenged _ = false

unfoldable pub reject : ControlBlock → Segment → Error → ControlBlock × Option Error
reject tcb seg err =
    if is_challenged err && not (has_any seg.flags flag_rst)
    then if too_many_challenge_acks tcb
      then (abort tcb, some net_closed)
      else (trigger_challenge_ack_emit tcb, some err)
    else (tcb, some err)

abbrev pub rst_jump : Value
rst_jump = 100

-- `pending[0] |= FlagACK`
unfoldable pub queue_ack : ControlBlock → ControlBlock
queue_ack tcb = record tcb { pending0 = bit_or tcb.pending0 flag_ack }

unfoldable pub handle_rst_in : State → ControlBlock → Value → ControlBlock × Option Error
handle_rst_in syn_sent tcb seq = (abort tcb, some net_closed)
handle_rst_in listen tcb seq = (tcb, some drop_segment)
handle_rst_in syn_rcvd tcb seq =
    let tcb1 = record tcb { pending0 = 0; state = listen } in
    let tcb2 = reset_snd tcb1 (add32 tcb1.snd.iss rst_jump) tcb1.snd.wnd in
    (reset_rcv tcb2 tcb2.rcv.wnd (bit_xor 3_141_592_653 tcb2.rcv.irs), some drop_segment)
handle_rst_in _ tcb seq =
    if not (seq == tcb.rcv.nxt)
    then (queue_ack (trigger_challenge_ack_emit tcb), some drop_segment)
    else (abort tcb, some net_closed)

unfoldable pub handle_rst : ControlBlock → Value → ControlBlock × Option Error
unfolding handle_rst_in
handle_rst tcb seq = handle_rst_in tcb.state tcb seq

unfoldable pub acks_old : ControlBlock → Segment → Bool
acks_old tcb seg = has_all seg.flags flag_ack && not (less_than tcb.snd.una seg.ack)

unfoldable pub acks_unsent_data : ControlBlock → Segment → Bool
acks_unsent_data tcb seg = has_all seg.flags flag_ack && not (less_than_eq seg.ack tcb.snd.nxt)

-- The last `switch`.
unfoldable pub drop_checks : ControlBlock → Segment → ControlBlock × Option Error
drop_checks tcb seg =
    let is_established = tcb.state is established in
    let ctl_or_data =
      is_established && (ltb 0 seg.datalen || has_any seg.flags (bit_or flag_fin flag_rst)) in
    let old = acks_old tcb seg in
    let unsent = acks_unsent_data tcb seg in
    if is_established && old && not ctl_or_data
    then (tcb, none)
    else if is_established && unsent
    then (queue_ack tcb, some drop_segment)
    else if is_preestablished tcb.state && (old || unsent)
    then (
      reset_snd (record tcb { pending0 = flag_rst; rst_ptr = seg.ack }) tcb.snd.iss seg.wnd,
      some drop_segment,
    )
    else (tcb, none)

unfoldable pub validate_incoming : ControlBlock → Segment → ControlBlock × Option Error
validate_incoming tcb seg = elim (incoming_error tcb seg) [
  | some err ↦ reject tcb seg err
  | none ↦ if has_any seg.flags flag_rst then handle_rst tcb seg.seq else drop_checks tcb seg
]
