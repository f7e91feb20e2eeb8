-- ===== src/Tcp/Control/Block.antt =====
-- tcp/control.go: the ControlBlock, its queries and the operations that touch one or two fields.
-- A method on `*ControlBlock` returns the new block; the logger is left out.
use lneto.Base.{
  ℕ, Bool, true, false, ◌&&◌, ◌||◌, not, Option, none, some, ltb, leb, ◌==◌, if◌then◌else◌, bit_and,
  bit_or, sub32, sub8, neg8, is_negative8,
}
use lneto.Tcp.Value.{Value, Size, less_than, sizeof}
use lneto.Tcp.Segment.{
  Error, need_closed_tcb_to_open, window_too_large, conn_not_exist, connection_closing,
  invalid_state, Flags, flag_fin, flag_rst, flag_ack, finack, State, closed, listen, syn_rcvd,
  syn_sent, established, fin_wait2, time_wait, close_wait, last_ack, ◌is◌, has_irs, tx_data_open,
  tx_queued_data_open, Segment, max_window,
}

-- `retransmitAfterDupacks`, `retransmitMaxQueued` and `maxChallengeRejects`
abbrev pub retransmit_after_dupacks : ℕ
retransmit_after_dupacks = 3

abbrev pub retransmit_max_queued : ℕ
retransmit_max_queued = 2

abbrev pub max_challenge_rejects : ℕ
max_challenge_rejects = 8

pub record RecvSpace : Type 0 where
  pub irs : Value
  pub nxt : Value
  pub wnd : Size

pub record SendSpace : Type 0 where
  pub iss : Value
  pub una : Value
  pub nxt : Value
  pub wnd : Size
  pub mss : Size
  pub wl1 : Value
  pub wl2 : Value

-- `pending0` and `pending1` are the array `pending`.
pub record ControlBlock : Type 0 where
  pub snd : SendSpace
  pub rcv : RecvSpace
  pub rst_ptr : Value
  pub pending0 : Flags
  pub pending1 : Flags
  pub state : State
  pub challenge_acks : ℕ  -- int8, as its bit pattern
  pub dupack : ℕ  -- uint8
  pub n_retransmit : ℕ  -- uint8

-- The zero values of Go.
abbrev pub zero_snd : SendSpace
zero_snd = record { iss = 0; una = 0; nxt = 0; wnd = 0; mss = 0; wl1 = 0; wl2 = 0 }

abbrev pub zero_rcv : RecvSpace
zero_rcv = record { irs = 0; nxt = 0; wnd = 0 }

abbrev pub zero_block : ControlBlock
zero_block = record {
  snd = zero_snd;
  rcv = zero_rcv;
  rst_ptr = 0;
  pending0 = 0;
  pending1 = 0;
  state = closed;
  challenge_acks = 0;
  dupack = 0;
  n_retransmit = 0;
}

unfoldable pub max_in_flight_data : ControlBlock → Size
max_in_flight_data tcb =
    let unacked = sizeof tcb.snd.una tcb.snd.nxt in
    if not (has_irs tcb.state)
    then 0
    else if leb tcb.snd.wnd unacked
    then 0
    else sub32 tcb.snd.wnd unacked

unfoldable pub incoming_is_keepalive : ControlBlock → Segment → Bool
incoming_is_keepalive tcb seg =
    seg.seq == sub32 tcb.rcv.nxt 1
    && seg.flags == flag_ack
    && seg.ack == tcb.snd.nxt
    && seg.datalen == 0

unfoldable pub incoming_is_dup_ack : ControlBlock → Value → Bool
incoming_is_dup_ack tcb ack = ack == tcb.snd.una && less_than ack tcb.snd.nxt

unfoldable pub make_keepalive : ControlBlock → Segment
make_keepalive tcb = record {
  seq = sub32 tcb.snd.nxt 1;
  ack = tcb.rcv.nxt;
  datalen = 0;
  wnd = tcb.rcv.wnd;
  flags = flag_ack;
}

unfoldable pub queue_rst : ControlBlock → Value → ControlBlock
queue_rst tcb seq = record tcb { pending0 = flag_rst; pending1 = 0; rst_ptr = seq }

unfoldable pub make_dup_ack : ControlBlock → Segment
make_dup_ack tcb = record {
  seq = tcb.snd.una;
  ack = tcb.rcv.nxt;
  datalen = 0;
  wnd = tcb.rcv.wnd;
  flags = flag_ack;
}

unfoldable pub make_challenge_ack : ControlBlock → Segment
make_challenge_ack tcb = record {
  seq = tcb.snd.nxt;
  ack = tcb.rcv.nxt;
  datalen = 0;
  wnd = tcb.rcv.wnd;
  flags = flag_ack;
}

unfoldable pub in_flight : SendSpace → Size
in_flight snd = sizeof snd.una snd.nxt

unfoldable pub max_send : SendSpace → Size
unfolding in_flight
max_send snd = let inf = in_flight snd in if leb snd.wnd inf then 0 else sub32 snd.wnd inf

-- `reset` (and `Abort`, which adds a log line): all but the logger goes back to zero.
unfoldable pub abort : ControlBlock → ControlBlock
abort tcb = zero_block

unfoldable pub reset_snd : ControlBlock → Value → Size → ControlBlock
reset_snd tcb local_iss remote_wnd = record tcb {
  snd = record {
    iss = local_iss;
    una = local_iss;
    nxt = local_iss;
    wnd = remote_wnd;
    mss = 0;
    wl1 = 0;
    wl2 = 0;
  };
}

unfoldable pub reset_rcv : ControlBlock → Size → Value → ControlBlock
reset_rcv tcb local_wnd remote_iss = record tcb {
  rcv = record { irs = remote_iss; nxt = remote_iss; wnd = local_wnd };
}

unfoldable pub prepare_to_handshake : ControlBlock → Value → Size → State → ControlBlock
unfolding abort reset_snd reset_rcv
prepare_to_handshake tcb iss wnd new_state =
    let tcb1 = reset_snd (reset_rcv (abort tcb) wnd 0) iss 1 in record tcb1 { state = new_state }

unfoldable pub open_block : ControlBlock → Value → Size → ControlBlock × Option Error
open_block tcb iss wnd =
    if not (tcb.state is closed) && not (tcb.state is time_wait)
    then (tcb, some need_closed_tcb_to_open)
    else if ltb max_window wnd
    then (tcb, some window_too_large)
    else (prepare_to_handshake tcb iss wnd listen, none)

unfoldable pub trigger_challenge_ack_satisfied : ControlBlock → ControlBlock
trigger_challenge_ack_satisfied tcb = record tcb { challenge_acks = 0 }

-- `-c - 1` on `int8`
unfoldable pub trigger_challenge_ack_emit : ControlBlock → ControlBlock
trigger_challenge_ack_emit tcb =
    if is_negative8 tcb.challenge_acks
    then tcb
    else record tcb { challenge_acks = sub8 (neg8 tcb.challenge_acks) 1 }

unfoldable pub trigger_challenge_ack_sent : ControlBlock → ControlBlock
trigger_challenge_ack_sent tcb =
    if is_negative8 tcb.challenge_acks
    then record tcb { challenge_acks = neg8 tcb.challenge_acks }
    else tcb

unfoldable pub pending_challenge_ack : ControlBlock → Bool
pending_challenge_ack tcb = is_negative8 tcb.challenge_acks

-- A negative `int8` is below `-8` when its pattern is below that of `-8`.
unfoldable pub too_many_challenge_acks : ControlBlock → Bool
too_many_challenge_acks tcb =
    if not (is_negative8 tcb.challenge_acks)
    then ltb max_challenge_rejects tcb.challenge_acks
    else ltb tcb.challenge_acks (neg8 max_challenge_rejects)

unfoldable pub has_pending_retransmit : ControlBlock → Bool
has_pending_retransmit tcb =
    tx_data_open tcb.state
    && leb retransmit_after_dupacks tcb.dupack
    && leb tcb.n_retransmit (sub8 tcb.dupack retransmit_after_dupacks)

unfoldable pub has_pending : ControlBlock → Bool
has_pending tcb = not (tcb.pending0 == 0) || pending_challenge_ack tcb || has_pending_retransmit tcb

unfoldable pub retransmit_from : ControlBlock → Value → ControlBlock × Bool
retransmit_from tcb new_nxt =
    if not (tx_queued_data_open tcb.state)
    then (tcb, false)
    else if less_than new_nxt tcb.snd.una || less_than tcb.snd.nxt new_nxt
    then (tcb, false)
    else (
      record tcb { snd = record (tcb.snd) { nxt = new_nxt }; dupack = 0; n_retransmit = 0 },
      true,
    )

unfoldable pub retransmit_all : ControlBlock → ControlBlock
unfolding retransmit_from
retransmit_all tcb = (retransmit_from tcb tcb.snd.una).0

-- The `switch` of `Close`.
unfoldable pub close_in : State → ControlBlock → ControlBlock × Option Error
unfolding abort
close_in closed tcb = (tcb, some conn_not_exist)
close_in close_wait tcb = (record tcb { state = last_ack; pending0 = finack; pending1 = 0 }, none)
close_in listen tcb = (abort tcb, none)
close_in syn_sent tcb = (abort tcb, none)
close_in syn_rcvd tcb =
    (record tcb { pending0 = bit_or (bit_and tcb.pending0 flag_ack) flag_fin }, none)
close_in established tcb =
    (record tcb { pending0 = bit_or (bit_and tcb.pending0 flag_ack) flag_fin }, none)
close_in fin_wait2 tcb = (tcb, some connection_closing)
close_in time_wait tcb = (tcb, some connection_closing)
close_in _ tcb = (tcb, some invalid_state)

unfoldable pub close_block : ControlBlock → ControlBlock × Option Error
unfolding close_in
close_block tcb = close_in tcb.state tcb
