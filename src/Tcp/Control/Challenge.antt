-- ===== src/Tcp/Control/Challenge.antt =====
-- tcp/control.go: challenge ACKs, their counter, and how far the counter holds.
use lneto.Base.{
  Ran, ran, panicked, ℕ, zero, suc, ◌+◌, ◌^◌, ◌≤◌, ◌<◌, ◌≡◌, refl, true, false, Option, none, some,
  arith, IsU32, add32,
}
use lneto.Tcp.Value.{less_than, in_range, add, in_window, update_forward}
use lneto.Tcp.Segment.{
  Error, drop_segment, net_closed, flag_rst, has_any, established, is_preestablished, Segment,
  seg_len, seg_last, max_window,
}
use lneto.Tcp.Control.Block.{
  ControlBlock, zero_block, make_challenge_ack, abort, trigger_challenge_ack_emit,
  trigger_challenge_ack_sent, pending_challenge_ack, too_many_challenge_acks, max_challenge_rejects,
}
use lneto.Tcp.Control.Incoming.{
  rcv_zero_window_ok, checks_seq, incoming_error, is_challenged, reject, queue_ack, handle_rst,
  validate_incoming,
}
use lneto.Tcp.Control.Recv.{recv_after, recv}
use lneto.Tcp.Control.Send.{
  checks_out_seq, snd_zero_window_ok, is_retransmit, validate_outgoing, send_in, advance_pending,
  satisfy_challenge, advance_next, send_valid, send, pending_segment,
}

-- Rejecting a segment that is out of order or out of window, with no challenge ACK outstanding:
-- up to eight earlier rejections the segment's error is returned and, once the challenge ACK is
-- sent, the counter is one higher; after nine the block is dropped and the error is net.ErrClosed.
pub reject_counts :
    (tcb : ControlBlock) (seg : Segment) (err : Error)
    → is_challenged err ≡ true
    → has_any seg.flags flag_rst ≡ false
    → tcb.challenge_acks < 2 ^ 7
    → (tcb.challenge_acks ≤ max_challenge_rejects
        → ((reject tcb seg err).1 ≡ some err)
          × (pending_challenge_ack (reject tcb seg err).0 ≡ true)
          × ((trigger_challenge_ack_sent (reject tcb seg err).0).challenge_acks
              ≡ tcb.challenge_acks + 1))
      × (max_challenge_rejects < tcb.challenge_acks
          → reject tcb seg err ≡ (zero_block, some net_closed))
unfolding reject too_many_challenge_acks trigger_challenge_ack_emit trigger_challenge_ack_sent
    pending_challenge_ack abort
reject_counts tcb seg err c r h = ground arith

-- An established block with room for a segment past rcv.NXT.
pub record IsOpen (tcb : ControlBlock) : Type 0 where
  pub is_established : tcb.state ≡ established
  pub wide : 2 ≤ tcb.rcv.wnd
  pub not_too_wide : tcb.rcv.wnd ≤ max_window
  pub snd_nxt_u32 : IsU32 tcb.snd.nxt
  pub rcv_nxt_u32 : IsU32 tcb.rcv.nxt
  pub snd_wnd_u32 : IsU32 tcb.snd.wnd

-- A reset segment one past rcv.NXT.
abbrev pub stray_rst : ControlBlock → Segment
stray_rst tcb = record {
  seq = add32 tcb.rcv.nxt 1;
  ack = 0;
  datalen = 0;
  wnd = 0;
  flags = flag_rst;
}

stray_rst_admitted : (tcb : ControlBlock) → IsOpen tcb → incoming_error tcb (stray_rst tcb) ≡ none
unfolding incoming_error checks_seq is_preestablished in_window in_range add seg_last seg_len
    rcv_zero_window_ok has_any
stray_rst_admitted tcb o = ground arith

stray_rst_validated :
    (tcb : ControlBlock)
    → IsOpen tcb
    → validate_incoming tcb (stray_rst tcb)
      ≡ (queue_ack (trigger_challenge_ack_emit tcb), some drop_segment)
unfolding validate_incoming handle_rst has_any
stray_rst_validated tcb o = ground (arith, stray_rst_admitted tcb o)

recv-stray_rst :
    (tcb : ControlBlock)
    → IsOpen tcb
    → recv tcb (stray_rst tcb) ≡ ran (queue_ack (trigger_challenge_ack_emit tcb), some drop_segment)
unfolding recv recv_after
recv-stray_rst tcb o = rw (stray_rst_validated tcb o, recv) refl

challenge_ack_valid :
    (tcb : ControlBlock) → IsOpen tcb → validate_outgoing tcb (make_challenge_ack tcb) ≡ none
unfolding validate_outgoing make_challenge_ack is_retransmit checks_out_seq snd_zero_window_ok
    in_window in_range add seg_last seg_len has_any
challenge_ack_valid tcb o = ground arith

send-challenge_ack :
    (tcb : ControlBlock)
    → IsOpen tcb
    → (IsOpen (send tcb (make_challenge_ack tcb)).0)
      × ((send tcb (make_challenge_ack tcb)).0.challenge_acks
          ≡ (trigger_challenge_ack_sent tcb).challenge_acks)
unfolding send send_valid send_in advance_pending satisfy_challenge advance_next make_challenge_ack
    has_any seg_len update_forward trigger_challenge_ack_sent pending_challenge_ack less_than
send-challenge_ack tcb o = ground (arith, challenge_ack_valid tcb o)

-- The peer sends a stray reset, and the challenge ACK that it provokes is sent.
abbrev pub after_recv : ControlBlock → Ran (ControlBlock × Option Error) → ControlBlock
after_recv tcb panicked = tcb
after_recv tcb (ran (t, e)) = t

pub challenge_round : ControlBlock → ControlBlock
challenge_round tcb =
    let t = after_recv tcb (recv tcb (stray_rst tcb)) in (send t (make_challenge_ack t)).0

queued_IsOpen :
    (tcb : ControlBlock) → IsOpen tcb → IsOpen (queue_ack (trigger_challenge_ack_emit tcb))
unfolding queue_ack trigger_challenge_ack_emit
queued_IsOpen tcb o = ground arith

emit_counts :
    (tcb : ControlBlock)
    → tcb.challenge_acks < 2 ^ 7
    → ((trigger_challenge_ack_sent (queue_ack (trigger_challenge_ack_emit tcb))).challenge_acks
        ≡ tcb.challenge_acks + 1)
unfolding queue_ack trigger_challenge_ack_emit trigger_challenge_ack_sent
emit_counts tcb h = ground arith

challenge_round_lem :
    (tcb : ControlBlock)
    → IsOpen tcb
    → IsOpen (challenge_round tcb)
      × ((challenge_round tcb).challenge_acks
          ≡ (trigger_challenge_ack_sent
              (queue_ack (trigger_challenge_ack_emit tcb))).challenge_acks)
unfolding challenge_round
challenge_round_lem tcb o =
    rw (recv-stray_rst tcb o, challenge_round)
      (send-challenge_ack (queue_ack (trigger_challenge_ack_emit tcb)) (queued_IsOpen tcb o))

pub challenge_rounds : ℕ → ControlBlock → ControlBlock
challenge_rounds zero tcb = tcb
challenge_rounds (suc n) tcb = challenge_round (challenge_rounds n tcb)

rounds_count :
    (n : ℕ) (tcb : ControlBlock)
    → IsOpen tcb
    → tcb.challenge_acks ≡ 0
    → n ≤ 2 ^ 7
    → IsOpen (challenge_rounds n tcb) × ((challenge_rounds n tcb).challenge_acks ≡ n)
unfolding challenge_rounds
rounds_count zero tcb o z h = (o, z)
rounds_count (suc n) tcb o z h =
    let (o', c) = rounds_count n tcb o z (omega arith) in
    let (p, e) = challenge_round_lem (challenge_rounds n tcb) o' in
    (p, omega (arith, emit_counts (challenge_rounds n tcb) (omega arith)))

stuck_pending :
    (t : ControlBlock)
    → IsOpen t
    → t.challenge_acks ≡ 2 ^ 7
    → (t.state ≡ established) × ((n : ℕ) → pending_segment t n ≡ ran (some (make_challenge_ack t)))
unfolding pending_segment pending_challenge_ack
stuck_pending t o c = (o.is_established, λ n. ground arith)

stuck_sent :
    (t : ControlBlock)
    → IsOpen t
    → t.challenge_acks ≡ 2 ^ 7
    → (IsOpen (send t (make_challenge_ack t)).0)
      × ((send t (make_challenge_ack t)).0.challenge_acks ≡ 2 ^ 7)
unfolding trigger_challenge_ack_sent
stuck_sent t o c = ground (arith, send-challenge_ack t o)

-- From an established block whose counter is zero: after 128 stray resets, each answered by its
-- challenge ACK, the connection is still open, and `PendingSegment` offers one more challenge ACK,
-- whatever payload waits, although the last one was sent; sending that one changes nothing of this.
pub challenge_ack_sticks :
    (tcb : ControlBlock)
    → IsOpen tcb
    → tcb.challenge_acks ≡ 0
    → let t = challenge_rounds 128 tcb in
      let u = (send t (make_challenge_ack t)).0 in
      (t.state ≡ established)
      × ((n : ℕ) → pending_segment t n ≡ ran (some (make_challenge_ack t)))
      × (u.state ≡ established)
      × ((n : ℕ) → pending_segment u n ≡ ran (some (make_challenge_ack u)))
challenge_ack_sticks tcb o z =
    let (p, c) = rounds_count 128 tcb o z (omega arith) in
    let t = challenge_rounds 128 tcb in
    let (p', c') = stuck_sent t p c in
    let (a, b) = stuck_pending t p c in
    let (a', b') = stuck_pending (send t (make_challenge_ack t)).0 p' c' in (a, b, a', b')
