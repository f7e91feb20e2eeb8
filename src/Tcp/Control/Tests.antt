-- ===== src/Tcp/Control/Tests.antt =====
-- Witnesses for tcp/control.go and tcp/valuesize.go, on one established connection.
use lneto.Base.{
  ℕ, ◌+◌, ◌-◌, ◌%◌, ◌^◌, ◌≤◌, ◌<◌, ◌≡◌, refl, ◌↔◌, ◌⊎◌, true, false, none, some, arith, ran,
  panicked,
}
use lneto.Tcp.Value.{less_than, less_than_eq, in_range, add, in_window, sizeof, update_forward}
use lneto.Tcp.Segment.{
  require_sequential, net_closed, flag_syn, flag_rst, flag_ack, has_all, has_any, established,
  time_wait, is_preestablished, tx_data_open, tx_queued_data_open, Segment, seg_len, seg_last,
}
use lneto.Tcp.Control.Block.{
  ControlBlock, zero_block, incoming_is_dup_ack, make_challenge_ack, in_flight, max_send, abort,
  trigger_challenge_ack_satisfied, trigger_challenge_ack_emit, pending_challenge_ack,
  too_many_challenge_acks, has_pending_retransmit,
}
use lneto.Tcp.Control.Incoming.{
  rcv_zero_window_ok, checks_seq, incoming_error, is_challenged, reject, handle_rst, acks_old,
  acks_unsent_data, drop_checks, validate_incoming,
}
use lneto.Tcp.Control.Recv.{
  rcv_established, rcv_in, window_is_newer, update_window, counts_dup_ack, process_ack, accept,
  finish_recv, recv_valid, recv_after, recv,
}
use lneto.Tcp.Control.Send.{send, build_pending, plain_pending, pending_segment}
use lneto.Tcp.Control.Receiving.{InOrder, recv-InOrder}
use lneto.Tcp.Control.Sending.{pending_segment_bounds, SendOutcome, send-SendOutcome}
use lneto.Tcp.Value.Order.{sizeof-add, in_range_iff}
use lneto.Tcp.Control.Transitions.{◌⟶◌, recv-⟶}
use lneto.Tcp.Control.Errors.{SameButChallenge, recv_refused_same, recv_panics_iff}
use lneto.Tcp.Control.OppositeAck.{recv_opposite_ack}
use lneto.Tcp.Control.Challenge.{challenge_rounds, challenge_ack_sticks}
use lneto.Tcp.Control.Peers.{Peers}
use lneto.Tcp.Control.Handshake.{Agree, connect, connect-Agree}
use lneto.Tcp.Control.Data.{send-pending_segment}

abbrev conn : ControlBlock
conn = record {
  snd = record { iss = 100; una = 101; nxt = 111; wnd = 1000; mss = 0; wl1 = 300; wl2 = 101 };
  rcv = record { irs = 300; nxt = 301; wnd = 500 };
  rst_ptr = 0;
  pending0 = 0;
  pending1 = 0;
  state = established;
  challenge_acks = 0;
  dupack = 0;
  n_retransmit = 0;
}

-- ten bytes in order, acknowledging five of ours
abbrev data_segment : Segment
data_segment = record { seq = 301; ack = 106; datalen = 10; wnd = 1000; flags = flag_ack }

abbrev conn_after : ControlBlock
conn_after = record conn {
  snd = record { iss = 100; una = 106; nxt = 111; wnd = 1000; mss = 0; wl1 = 301; wl2 = 106 };
  rcv = record { irs = 300; nxt = 311; wnd = 500 };
  pending0 = flag_ack;
}

recv-data_segment : recv conn data_segment ≡ ran (conn_after, none)
unfolding recv recv_after recv_valid rcv_in rcv_established finish_recv accept update_window
    window_is_newer process_ack counts_dup_ack incoming_is_dup_ack has_any
    trigger_challenge_ack_satisfied update_forward seg_len is_preestablished less_than less_than_eq
    tx_data_open validate_incoming incoming_error checks_seq drop_checks acks_old acks_unsent_data
    has_all in_window in_range add seg_last rcv_zero_window_ok
recv-data_segment = refl

-- the same bytes, ten too far
abbrev late_segment : Segment
late_segment = record { seq = 311; ack = 106; datalen = 10; wnd = 1000; flags = flag_ack }

abbrev conn_challenged : ControlBlock
conn_challenged = record conn { challenge_acks = 255 }

recv-late_segment : recv conn late_segment ≡ ran (conn_challenged, some require_sequential)
unfolding recv recv_after has_any validate_incoming incoming_error checks_seq in_window in_range add
    seg_last seg_len rcv_zero_window_ok reject is_preestablished too_many_challenge_acks
    trigger_challenge_ack_emit is_challenged
recv-late_segment = refl

abbrev reset_segment : Segment
reset_segment = record { seq = 301; ack = 0; datalen = 0; wnd = 0; flags = flag_rst }

recv-reset_segment : recv conn reset_segment ≡ ran (zero_block, some net_closed)
unfolding recv recv_after has_any validate_incoming incoming_error checks_seq in_window in_range add
    seg_last seg_len rcv_zero_window_ok is_preestablished handle_rst abort
recv-reset_segment = refl

recv-⟶_example : established ⟶ established
recv-⟶_example = recv-⟶ conn data_segment recv-data_segment

recv_refused_same_example : SameButChallenge conn_challenged conn
recv_refused_same_example =
    recv_refused_same conn late_segment require_sequential recv-late_segment (λ e. cc) (λ e. cc)

recv_panics_iff_example : (recv conn data_segment ≡ panicked) ↔ (
    (established ≡ time_wait)
    × ((validate_incoming conn data_segment).1 ≡ none)
    × (has_any flag_ack flag_syn ≡ false))
recv_panics_iff_example = recv_panics_iff conn data_segment

recv-InOrder_example : InOrder conn data_segment conn_after
recv-InOrder_example = recv-InOrder conn data_segment refl recv-data_segment

abbrev idle : ControlBlock
idle = record conn {
  snd = record { iss = 100; una = 111; nxt = 111; wnd = 1000; mss = 0; wl1 = 300; wl2 = 101 };
}

abbrev opposite_segment : Segment
opposite_segment = record { seq = 301; ack = 2_147_483_759; datalen = 0; wnd = 9; flags = flag_ack }

recv_opposite_ack_example :
    (t : ControlBlock) × (recv idle opposite_segment ≡ ran (t, none))
    × (t.snd.una ≡ 2_147_483_759)
    × (t.state ≡ established)
    × (in_flight t.snd ≡ 2 ^ 31)
recv_opposite_ack_example = recv_opposite_ack idle opposite_segment (ground arith) (ground arith)

challenge_ack_sticks_example :
    let t = challenge_rounds 128 conn in
    let u = (send t (make_challenge_ack t)).0 in
    (t.state ≡ established)
    × ((n : ℕ) → pending_segment t n ≡ ran (some (make_challenge_ack t)))
    × (u.state ≡ established)
    × ((n : ℕ) → pending_segment u n ≡ ran (some (make_challenge_ack u)))
challenge_ack_sticks_example = challenge_ack_sticks conn (ground arith) refl

abbrev peers : Peers
peers = record { client_iss = 100; client_wnd = 1000; server_iss = 4_294_967_295; server_wnd = 500 }

connect-Agree_example :
    (c : ControlBlock) × (s : ControlBlock) × (connect peers ≡ some (c, s)) × Agree peers c s
connect-Agree_example = connect-Agree peers (omega arith)

abbrev twenty_bytes : Segment
twenty_bytes = record { seq = 111; ack = 301; datalen = 20; wnd = 500; flags = flag_ack }

pending-twenty_bytes : pending_segment conn 20 ≡ ran (some twenty_bytes)
unfolding pending_segment pending_challenge_ack has_any has_pending_retransmit plain_pending
    build_pending max_send in_flight sizeof tx_queued_data_open tx_data_open
pending-twenty_bytes = refl

pending_segment_bounds_example :
    (twenty_bytes.datalen ≤ 20)
    × ((twenty_bytes.datalen ≡ 0)
        ⊎ ((conn.snd.nxt + 2 ^ 32 - conn.snd.una) % 2 ^ 32 + twenty_bytes.datalen ≤ conn.snd.wnd))
    × (0 < conn.snd.mss → twenty_bytes.datalen ≤ conn.snd.mss)
    × (tx_queued_data_open established ≡ false → twenty_bytes.datalen ≡ 0)
unfolding pending_challenge_ack has_pending_retransmit tx_data_open
pending_segment_bounds_example = pending_segment_bounds conn 20 refl refl pending-twenty_bytes

send-pending_segment_example :
    ((send conn twenty_bytes).1 ≡ none)
    × ((send conn twenty_bytes).0.snd.nxt ≡ 131)
    × ((send conn twenty_bytes).0.snd.una ≡ 101)
unfolding pending_challenge_ack has_pending_retransmit tx_queued_data_open tx_data_open
send-pending_segment_example = send-pending_segment conn 20 (ground arith) pending-twenty_bytes

send-SendOutcome_example : SendOutcome conn twenty_bytes (send conn twenty_bytes)
send-SendOutcome_example = send-SendOutcome conn twenty_bytes

sizeof-add_example :
    (sizeof 4_294_967_295 (add 4_294_967_295 3) ≡ 3)
    × (add 4_294_967_295 (sizeof 4_294_967_295 2) ≡ 2)
sizeof-add_example = sizeof-add 4_294_967_295 2 3 (omega arith) (omega arith) (omega arith)

in_range_iff_example :
    (in_range 1 4_294_967_295 2 ≡ true) ↔ (sizeof 4_294_967_295 1 < sizeof 4_294_967_295 2)
in_range_iff_example = in_range_iff 1 4_294_967_295 2 (omega arith) (omega arith) (omega arith)
