-- ===== src/Tcp/Control/Recv.antt =====
-- tcp/control_rcvhandlers.go and `Recv` of tcp/control.go.
use lneto.Base.{
  Ran, ran, panicked, Bool, ◌&&◌, ◌||◌, not, Option, none, some, ltb, ◌==◌, if◌then◌else◌, bit_and,
  bit_or, add32, add8,
}
use lneto.Tcp.Value.{less_than, less_than_eq, update_forward}
use lneto.Tcp.Segment.{
  Error, drop_segment, expected_syn, bad_segack, finwait_expected_ack, Flags, flag_fin, flag_syn,
  flag_ack, synack, flagctl, has_all, has_any, State, closed, listen, syn_rcvd, syn_sent,
  established, fin_wait1, fin_wait2, closing, time_wait, close_wait, last_ack, is_preestablished,
  tx_data_open, Segment, seg_len,
}
use lneto.Tcp.Control.Block.{
  ControlBlock, abort, reset_snd, reset_rcv, trigger_challenge_ack_emit,
  trigger_challenge_ack_satisfied, incoming_is_dup_ack, retransmit_max_queued,
}
use lneto.Tcp.Control.Incoming.{validate_incoming, queue_ack}

-- The block, the flags to queue and the error of a handler.
abbrev pub Handled : Type 0
Handled = ControlBlock × Flags × Option Error

unfoldable pub rcv_listen : ControlBlock → Segment → Handled
rcv_listen tcb seg =
    let tcb1 = reset_rcv (reset_snd tcb tcb.snd.iss seg.wnd) tcb.rcv.wnd seg.seq in
    if not (has_all seg.flags flag_syn)
    then (tcb, 0, some expected_syn)
    else (record tcb1 { pending0 = synack; state = syn_rcvd }, synack, none)

unfoldable pub rcv_syn_sent : ControlBlock → Segment → Handled
rcv_syn_sent tcb seg =
    let has_syn = has_any seg.flags flag_syn in
    let has_ack = has_any seg.flags flag_ack in
    if not has_syn
    then (tcb, 0, some expected_syn)
    else if has_ack && not (seg.ack == add32 tcb.snd.una 1)
    then (tcb, 0, some bad_segack)
    else if has_ack
    then (reset_rcv (record tcb { state = established }) tcb.rcv.wnd seg.seq, flag_ack, none)
    else (
      reset_rcv (reset_snd (record tcb { state = syn_rcvd }) tcb.snd.iss seg.wnd) tcb.rcv.wnd
          seg.seq,
      synack,
      none,
    )

unfoldable pub rcv_syn_rcvd : ControlBlock → Segment → Handled
rcv_syn_rcvd tcb seg =
    if not (has_all seg.flags flag_ack)
    then (tcb, 0, some bad_segack)
    else if not (seg.ack == add32 tcb.snd.una 1)
    then (tcb, 0, some bad_segack)
    else (record tcb { state = established }, 0, none)

unfoldable pub rcv_established : ControlBlock → Segment → Handled
rcv_established tcb seg =
    let has_fin = has_any seg.flags flag_fin in
    if ltb 0 seg.datalen || has_fin
    then (if has_fin then record tcb { state = close_wait } else tcb, flag_ack, none)
    else (tcb, 0, none)

-- The state that the `switch` of `rcvFinWait1` leads to; `none` is its `default`.
unfoldable pub fin_wait1_next : ControlBlock → Segment → Option State
fin_wait1_next tcb seg =
    let has_fin = not (bit_and seg.flags flag_fin == 0) in
    let has_ack = not (bit_and seg.flags flag_ack == 0) in
    if has_fin && has_ack && seg.ack == tcb.snd.nxt
    then some time_wait
    else if has_fin
    then some closing
    else if has_ack && seg.ack == tcb.snd.nxt
    then some fin_wait2
    else if has_ack
    then some tcb.state
    else none

unfoldable pub rcv_fin_wait1 : ControlBlock → Segment → Handled
rcv_fin_wait1 tcb seg = elim (fin_wait1_next tcb seg) [
  | none ↦ (tcb, 0, some finwait_expected_ack)
  | some s ↦ (
    record tcb { state = s },
    if ltb 0 seg.datalen || not (bit_and seg.flags flag_fin == 0) then flag_ack else 0,
    none,
  )
]

unfoldable pub rcv_fin_wait2 : ControlBlock → Segment → Handled
rcv_fin_wait2 tcb seg =
    if has_any seg.flags flag_fin
    then (record tcb { state = time_wait }, flag_ack, none)
    else if ltb 0 seg.datalen
    then (tcb, flag_ack, none)
    else (tcb, 0, none)

-- The `switch` of `Recv` on the state; its `default` panics.
unfoldable pub rcv_in : State → ControlBlock → Segment → Ran Handled
rcv_in listen tcb seg = ran (rcv_listen tcb seg)
rcv_in syn_sent tcb seg = ran (rcv_syn_sent tcb seg)
rcv_in syn_rcvd tcb seg = ran (rcv_syn_rcvd tcb seg)
rcv_in established tcb seg = ran (rcv_established tcb seg)
rcv_in fin_wait1 tcb seg = ran (rcv_fin_wait1 tcb seg)
rcv_in fin_wait2 tcb seg = ran (rcv_fin_wait2 tcb seg)
rcv_in close_wait tcb seg = ran (tcb, 0, none)
rcv_in last_ack tcb seg = ran (if has_any seg.flags flag_ack then abort tcb else tcb, 0, none)
rcv_in closing tcb seg =
    ran (if has_any seg.flags flag_ack then record tcb { state = time_wait } else tcb, 0, none)
rcv_in time_wait tcb seg = panicked
rcv_in closed tcb seg = panicked

-- The condition under which the send window follows the segment.
unfoldable pub window_is_newer : ControlBlock → Segment → Bool
window_is_newer tcb seg =
    (tcb.snd.wl1 == 0 && tcb.snd.wl2 == 0)
    || less_than tcb.snd.wl1 seg.seq
    || (tcb.snd.wl1 == seg.seq && less_than_eq tcb.snd.wl2 seg.ack)

unfoldable pub update_window : ControlBlock → Segment → ControlBlock
update_window tcb seg =
    let wnd' =
      if less_than tcb.snd.una seg.ack || ltb tcb.snd.wnd seg.wnd then seg.wnd else tcb.snd.wnd in
    if window_is_newer tcb seg
    then record tcb { snd = record (tcb.snd) { wnd = wnd'; wl1 = seg.seq; wl2 = seg.ack } }
    else tcb

unfoldable pub counts_dup_ack : ControlBlock → Segment → Bool
counts_dup_ack tcb seg =
    incoming_is_dup_ack tcb seg.ack
    && tx_data_open tcb.state
    && not (has_any seg.flags flagctl)
    && ltb tcb.dupack (add8 (add8 tcb.n_retransmit retransmit_max_queued) retransmit_max_queued)

unfoldable pub process_ack : ControlBlock → Segment → ControlBlock
process_ack tcb seg =
    if has_any seg.flags flag_ack && less_than_eq seg.ack tcb.snd.nxt
    then if counts_dup_ack tcb seg
      then record tcb { dupack = add8 tcb.dupack 1 }
      else if less_than tcb.snd.una seg.ack
      then record tcb { snd = record (tcb.snd) { una = seg.ack }; dupack = 0; n_retransmit = 0 }
      else tcb
    else tcb

-- `Recv` after the handler: the segment is accepted.
unfoldable pub accept : ControlBlock → Flags → Segment → ControlBlock
accept tcb pending seg =
    let tcb1 = trigger_challenge_ack_satisfied tcb in
    let tcb2 = record tcb1 { pending0 = bit_or tcb1.pending0 pending } in
    let tcb3 = process_ack (update_window tcb2 seg) seg in
    record tcb3 { rcv = record (tcb3.rcv) { nxt = update_forward tcb3.rcv.nxt (seg_len seg) } }

unfoldable pub finish_recv : Segment → Ran Handled → Ran (ControlBlock × Option Error)
finish_recv seg panicked = panicked
finish_recv seg (ran (tcb, pending, some err)) = ran (tcb, some err)
finish_recv seg (ran (tcb, pending, none)) = ran (accept tcb pending seg, none)

-- `Recv` on what `validateIncomingSegment` lets through.
unfoldable pub recv_valid : ControlBlock → Segment → Ran (ControlBlock × Option Error)
recv_valid tcb seg =
    if has_any seg.flags flag_syn && not (is_preestablished tcb.state)
    then ran (queue_ack (trigger_challenge_ack_emit tcb), some drop_segment)
    else finish_recv seg (rcv_in tcb.state tcb seg)

unfoldable pub recv_after :
    Segment → ControlBlock × Option Error → Ran (ControlBlock × Option Error)
recv_after seg (tcb, some err) = ran (tcb, some err)
recv_after seg (tcb, none) = recv_valid tcb seg

unfoldable pub recv : ControlBlock → Segment → Ran (ControlBlock × Option Error)
unfolding recv_after
recv tcb seg = recv_after seg (validate_incoming tcb seg)
