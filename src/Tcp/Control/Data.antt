-- ===== src/Tcp/Control/Data.antt =====
-- tcp/control.go: the data segments that PendingSegment builds, taken by Send, and the rewind of
-- RetransmitFrom.
use lneto.Base.{
  ran, ℕ, ◌^◌, ◌≤◌, ◌<◌, ◌≡◌, refl, ◌≢◌, ◌⊎◌, Bool, true, false, none, some, arith, IsU32, add32,
}
use lneto.Tcp.Value.{Value, less_than, in_range, add, in_window, sizeof, update_forward}
use lneto.Tcp.Segment.{
  flag_fin, flag_rst, flag_ack, has_any, State, closed, listen, syn_sent, fin_wait2, is_closing,
  tx_queued_data_open, has_irs, Segment, seg_len, seg_last, max_window,
}
use lneto.Tcp.Control.Block.{
  ControlBlock, max_in_flight_data, in_flight, max_send, trigger_challenge_ack_sent,
  pending_challenge_ack, has_pending_retransmit, retransmit_from,
}
use lneto.Tcp.Control.Send.{
  snd_zero_window_ok, validate_outgoing, send_in, advance_pending, satisfy_challenge, advance_next,
  send_valid, send, build_pending, plain_pending, pending_segment,
}

-- A block that may send data, with nothing but an ACK pending.
pub record IsSending (tcb : ControlBlock) : Type 0 where
  pub data_open : tx_queued_data_open tcb.state ≡ true
  pub only_ack : (tcb.pending0 ≡ 0) ⊎ (tcb.pending0 ≡ flag_ack)
  pub no_challenge : pending_challenge_ack tcb ≡ false
  pub no_retransmit : has_pending_retransmit tcb ≡ false
  pub rcv_wnd_fits : tcb.rcv.wnd ≤ max_window
  pub snd_wnd_u32 : IsU32 tcb.snd.wnd
  pub snd_nxt_u32 : IsU32 tcb.snd.nxt

-- What such a segment looks like.
record IsDataSegment (tcb : ControlBlock) (seg : Segment) : Type 0 where
  seq_next : seg.seq ≡ tcb.snd.nxt
  ack_next : seg.ack ≡ tcb.rcv.nxt
  wnd_same : seg.wnd ≡ tcb.rcv.wnd
  flags_ack : seg.flags ≡ flag_ack
  room : seg.datalen ≤ tcb.snd.wnd

build_pending_data :
    (tcb : ControlBlock)
    → IsSending tcb
    → (n : ℕ) → n ≤ tcb.snd.wnd
    → IsDataSegment tcb (build_pending tcb n)
unfolding build_pending has_any
build_pending_data tcb s n h = ground arith

plain_pending_data :
    (tcb : ControlBlock)
    → IsSending tcb
    → (n : ℕ) {seg : Segment} → plain_pending tcb n ≡ ran (some seg)
    → IsDataSegment tcb seg
unfolding plain_pending max_send
plain_pending_data tcb s n h =
    ground (arith, build_pending_data tcb s n, build_pending_data tcb s (max_send tcb.snd))

pending_data :
    (tcb : ControlBlock)
    → IsSending tcb
    → (n : ℕ) {seg : Segment} → pending_segment tcb n ≡ ran (some seg)
    → IsDataSegment tcb seg
unfolding pending_segment
pending_data tcb s n {seg} h = plain_pending_data tcb s n {seg = seg} (ground arith)

abbrev not_closed_nor_fin_wait2 : State → Bool
not_closed_nor_fin_wait2 closed = false
not_closed_nor_fin_wait2 fin_wait2 = false
not_closed_nor_fin_wait2 _ = true

open_lem : (s : State) → tx_queued_data_open s ≡ true → not_closed_nor_fin_wait2 s ≡ true
unfolding tx_queued_data_open
open_lem closed h = cc
open_lem _ h = ground arith

data_window :
    (tcb : ControlBlock) (seg : Segment)
    → IsSending tcb
    → IsDataSegment tcb seg
    → 0 < tcb.snd.wnd
    → (in_window seg.seq tcb.snd.nxt tcb.snd.wnd ≡ true)
      × (in_window (seg_last seg) tcb.snd.nxt tcb.snd.wnd ≡ true)
unfolding in_window in_range add seg_last seg_len
data_window tcb seg s d w = ground arith

has_any-ack :
    (seg : Segment)
    → seg.flags ≡ flag_ack
    → (has_any seg.flags flag_ack ≡ true)
      × (has_any seg.flags flag_rst ≡ false)
      × (has_any seg.flags flag_fin ≡ false)
unfolding has_any
has_any-ack seg h = rw h (refl, refl, refl)

data_valid :
    (tcb : ControlBlock) (seg : Segment)
    → IsSending tcb
    → IsDataSegment tcb seg
    → validate_outgoing tcb seg ≡ none
unfolding validate_outgoing snd_zero_window_ok
data_valid tcb seg s d =
    ground (arith, data_window tcb seg s d, has_any-ack seg, open_lem tcb.state)

send_in_snd :
    (s : State) (tcb : ControlBlock) (seg : Segment)
    → not_closed_nor_fin_wait2 s ≡ true
    → ((send_in s tcb seg).snd ≡ tcb.snd)
unfolding send_in
send_in_snd closed tcb seg h = cc
send_in_snd _ tcb seg h = ground arith

sent_data :
    (tcb : ControlBlock) (seg : Segment)
    → IsSending tcb
    → IsDataSegment tcb seg
    → ((send_valid tcb seg).snd.nxt ≡ add32 tcb.snd.nxt seg.datalen)
      × ((send_valid tcb seg).snd.una ≡ tcb.snd.una)
unfolding send_valid advance_pending satisfy_challenge trigger_challenge_ack_sent advance_next
    less_than update_forward seg_len
sent_data tcb seg s d =
    ground (arith, open_lem tcb.state, send_in_snd tcb.state tcb seg, has_any-ack seg)

-- In a state that may send data, with no flag but ACK pending, no challenge ACK due and no fast
-- retransmission due: whatever segment `PendingSegment` builds, `Send` takes it, and snd.NXT
-- advances by exactly its payload while snd.UNA stays.
pub send-pending_segment :
    (tcb : ControlBlock) (n : ℕ) {seg : Segment}
    → IsSending tcb
    → pending_segment tcb n ≡ ran (some seg)
    → ((send tcb seg).1 ≡ none)
      × ((send tcb seg).0.snd.nxt ≡ add32 tcb.snd.nxt seg.datalen)
      × ((send tcb seg).0.snd.una ≡ tcb.snd.una)
unfolding send
send-pending_segment tcb n {seg} s h =
    let d = pending_data tcb s n h in
    let e = sent_data tcb seg s d in rw (data_valid tcb seg s d, send) (refl, e.0, e.1)

-- `RetransmitFrom` reports false and changes nothing, or it rewinds snd.NXT to the value asked for
-- and clears both retransmission counters, and the bytes in flight do not grow. The three sequence
-- numbers are 32-bit, and fewer than half of the sequence numbers are in flight.
pub retransmit_from_lem :
    (tcb : ControlBlock) (v : Value)
    → IsU32 tcb.snd.una
    → IsU32 v
    → IsU32 tcb.snd.nxt
    → in_flight tcb.snd < 2 ^ 31
    → let (t, done) = retransmit_from tcb v in
      (done ≡ false → t ≡ tcb)
      × (done ≡ true
          → (t.snd.nxt ≡ v)
            × (t.snd.una ≡ tcb.snd.una)
            × (t.dupack ≡ 0)
            × (t.n_retransmit ≡ 0)
            × (in_flight t.snd ≤ in_flight tcb.snd))
unfolding retransmit_from in_flight sizeof less_than
retransmit_from_lem tcb v hu hv hn f = ground arith

-- `MaxInFlightData` is 0 in every closing state, CLOSE-WAIT and FIN-WAIT-1 included, in LISTEN and
-- in SYN-SENT; in each other state it is the room that `maxSend` finds in the send window.
pub max_in_flight_data_lem :
    (tcb : ControlBlock)
    → (is_closing tcb.state ≡ true → max_in_flight_data tcb ≡ 0)
      × (tcb.state ≡ listen → max_in_flight_data tcb ≡ 0)
      × (tcb.state ≡ syn_sent → max_in_flight_data tcb ≡ 0)
      × (is_closing tcb.state ≡ false
          → tcb.state ≢ listen
          → tcb.state ≢ syn_sent
          → max_in_flight_data tcb ≡ max_send tcb.snd)
unfolding max_in_flight_data has_irs is_closing max_send
max_in_flight_data_lem tcb = ground arith
