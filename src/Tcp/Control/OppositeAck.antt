-- ===== src/Tcp/Control/OppositeAck.antt =====
-- tcp/control.go: an acknowledgement at the far side of the circle of sequence numbers, where
-- `LessThan` holds both ways.
use lneto.Base.{ran, ◌^◌, ◌≤◌, ◌<◌, ◌≡◌, ◌∙◌, none, arith, IsU32, add32}
use lneto.Tcp.Value.{less_than, less_than_eq, in_range, add, in_window, sizeof}
use lneto.Tcp.Segment.{
  flag_ack, has_all, has_any, established, is_preestablished, Segment, seg_len, seg_last,
  max_window,
}
use lneto.Tcp.Control.Block.{
  ControlBlock, incoming_is_dup_ack, in_flight, trigger_challenge_ack_satisfied,
}
use lneto.Tcp.Control.Incoming.{
  rcv_zero_window_ok, checks_seq, incoming_error, acks_old, acks_unsent_data, drop_checks,
  validate_incoming,
}
use lneto.Tcp.Control.Recv.{
  rcv_established, rcv_in, update_window, counts_dup_ack, process_ack, accept, finish_recv,
  recv_valid, recv_after, recv,
}
use lneto.Tcp.Control.Transitions.{accept_state}

-- An empty ACK that comes in order and acknowledges the sequence number opposite snd.UNA.
pub record IsOppositeAck (tcb : ControlBlock) (seg : Segment) : Type 0 where
  pub seq_next : seg.seq ≡ tcb.rcv.nxt
  pub ack_opposite : seg.ack ≡ add32 tcb.snd.una (2 ^ 31)
  pub empty : seg.datalen ≡ 0
  pub flags_ack : seg.flags ≡ flag_ack
  pub wnd_fits : seg.wnd ≤ max_window

-- An established block with nothing in flight and an open receive window.
pub record IsIdle (tcb : ControlBlock) : Type 0 where
  pub is_established : tcb.state ≡ established
  pub none_in_flight : tcb.snd.una ≡ tcb.snd.nxt
  pub una_u32 : IsU32 tcb.snd.una
  pub rcv_nxt_u32 : IsU32 tcb.rcv.nxt
  pub rcv_wnd_open : 0 < tcb.rcv.wnd
  pub rcv_wnd_fits : tcb.rcv.wnd ≤ max_window

opposite_admitted :
    (tcb : ControlBlock) (seg : Segment)
    → IsIdle tcb
    → IsOppositeAck tcb seg
    → incoming_error tcb seg ≡ none
unfolding incoming_error checks_seq is_preestablished in_window in_range add seg_last seg_len
    rcv_zero_window_ok has_any
opposite_admitted tcb seg i o = rw (o.flags_ack, o.seq_next, o.empty, incoming_error) (ground arith)

opposite_validated :
    (tcb : ControlBlock) (seg : Segment)
    → IsIdle tcb
    → IsOppositeAck tcb seg
    → validate_incoming tcb seg ≡ (tcb, none)
unfolding validate_incoming drop_checks acks_old acks_unsent_data has_any has_all less_than
    less_than_eq is_preestablished
opposite_validated tcb seg i o = ground (arith, opposite_admitted tcb seg i o)

opposite_handled :
    (tcb : ControlBlock) (seg : Segment)
    → IsIdle tcb
    → IsOppositeAck tcb seg
    → recv_valid tcb seg ≡ ran (accept tcb 0 seg, none)
unfolding recv_valid rcv_in rcv_established finish_recv has_any
opposite_handled tcb seg i o =
    rw (i.is_established, o.flags_ack, o.empty, recv_valid) (ground arith)

opposite_una :
    (tcb : ControlBlock) (seg : Segment)
    → IsIdle tcb
    → IsOppositeAck tcb seg
    → ((accept tcb 0 seg).snd.una ≡ seg.ack) × (in_flight (accept tcb 0 seg).snd ≡ 2 ^ 31)
unfolding accept trigger_challenge_ack_satisfied update_window process_ack counts_dup_ack
    incoming_is_dup_ack less_than less_than_eq has_any in_flight sizeof
opposite_una tcb seg i o = ground arith

-- On every established block with nothing in flight and an open receive window, `Recv` accepts an
-- empty in-order ACK of the sequence number 2 ^ 31 past snd.UNA, although nothing of it was ever
-- sent, and moves snd.UNA there, which leaves 2 ^ 31 bytes counted as in flight.
pub recv_opposite_ack :
    (tcb : ControlBlock) (seg : Segment)
    → IsIdle tcb
    → IsOppositeAck tcb seg
    → (t : ControlBlock) × (recv tcb seg ≡ ran (t, none))
      × (t.snd.una ≡ seg.ack)
      × (t.state ≡ established)
      × (in_flight t.snd ≡ 2 ^ 31)
unfolding recv recv_after
recv_opposite_ack tcb seg i o =
    let (u, f) = opposite_una tcb seg i o in
    (
      accept tcb 0 seg,
      rw (opposite_validated tcb seg i o, recv) (opposite_handled tcb seg i o),
      u,
      accept_state tcb 0 seg ∙ i.is_established,
      f,
    )
