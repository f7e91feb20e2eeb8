-- ===== src/Tcp/Control/Steps.antt =====
-- tcp/control.go: each step of the three-way handshake.
use lneto.Base.{◌≡◌, none, some, arith, add32, ran}
use lneto.Tcp.Value.{less_than, less_than_eq, in_range, add, in_window, update_forward}
use lneto.Tcp.Segment.{
  flag_ack, has_all, has_any, established, is_preestablished, tx_data_open, tx_queued_data_open,
  seg_len, seg_last, is_first_syn, client_syn_segment,
}
use lneto.Tcp.Control.Block.{
  ControlBlock, zero_block, incoming_is_dup_ack, max_send, reset_snd, reset_rcv,
  prepare_to_handshake, open_block, trigger_challenge_ack_satisfied, pending_challenge_ack,
  has_pending_retransmit,
}
use lneto.Tcp.Control.Incoming.{
  rcv_zero_window_ok, checks_seq, incoming_error, acks_old, acks_unsent_data, drop_checks,
  validate_incoming,
}
use lneto.Tcp.Control.Recv.{
  rcv_listen, rcv_syn_sent, rcv_syn_rcvd, rcv_in, window_is_newer, update_window, counts_dup_ack,
  process_ack, accept, finish_recv, recv_valid, recv_after, recv,
}
use lneto.Tcp.Control.Send.{
  checks_out_seq, snd_zero_window_ok, is_retransmit, validate_outgoing, send_in, advance_pending,
  satisfy_challenge, advance_next, send_valid, send, build_pending, plain_pending, pending_segment,
}
use lneto.Tcp.Control.Peers.{
  Peers, IsPeers, client_syn_sent, server_listen, server_syn_rcvd, synack_segment,
  server_synack_sent, client_established, ack_segment,
}

pub opened :
    (p : Peers)
    → IsPeers p
    → open_block zero_block p.server_iss p.server_wnd ≡ (server_listen p, none)
unfolding open_block prepare_to_handshake
opened p i = ground arith

pub syn_valid :
    (p : Peers)
    → IsPeers p
    → validate_outgoing zero_block (client_syn_segment p.client_iss p.client_wnd) ≡ none
unfolding validate_outgoing client_syn_segment is_retransmit checks_out_seq is_first_syn has_any
syn_valid p i = ground arith

pub syn_sent_lem :
    (p : Peers)
    → IsPeers p
    → send zero_block (client_syn_segment p.client_iss p.client_wnd) ≡ (client_syn_sent p, none)
unfolding send send_valid send_in advance_pending satisfy_challenge advance_next client_syn_segment
    prepare_to_handshake pending_challenge_ack less_than update_forward seg_len
syn_sent_lem p i = rw (syn_valid p i, send) (ground arith)

pub syn_admitted :
    (p : Peers)
    → IsPeers p
    → validate_incoming (server_listen p) (client_syn_segment p.client_iss p.client_wnd)
      ≡ (server_listen p, none)
unfolding validate_incoming incoming_error checks_seq client_syn_segment has_any drop_checks
    acks_old acks_unsent_data has_all
syn_admitted p i = ground arith

pub syn_received :
    (p : Peers)
    → IsPeers p
    → recv (server_listen p) (client_syn_segment p.client_iss p.client_wnd)
      ≡ ran (server_syn_rcvd p, none)
unfolding recv recv_after recv_valid rcv_in rcv_listen finish_recv accept update_window
    window_is_newer process_ack client_syn_segment has_any has_all reset_snd reset_rcv
    trigger_challenge_ack_satisfied update_forward seg_len is_preestablished
syn_received p i = rw (syn_admitted p i, recv) (ground arith)

pub synack_pending :
    (p : Peers) → IsPeers p → pending_segment (server_syn_rcvd p) 0 ≡ ran (some (synack_segment p))
unfolding pending_segment pending_challenge_ack has_any has_pending_retransmit plain_pending
    build_pending max_send
synack_pending p i = ground arith

pub synack_valid :
    (p : Peers) → IsPeers p → validate_outgoing (server_syn_rcvd p) (synack_segment p) ≡ none
unfolding validate_outgoing is_retransmit checks_out_seq has_any in_window in_range add seg_last
    seg_len snd_zero_window_ok
synack_valid p i = ground arith

pub synack_sent :
    (p : Peers)
    → IsPeers p
    → send (server_syn_rcvd p) (synack_segment p) ≡ (server_synack_sent p, none)
unfolding send send_valid send_in advance_pending satisfy_challenge advance_next
    pending_challenge_ack less_than update_forward seg_len has_any
synack_sent p i = rw (synack_valid p i, send) (ground arith)

pub synack_admitted :
    (p : Peers)
    → IsPeers p
    → validate_incoming (client_syn_sent p) (synack_segment p) ≡ (client_syn_sent p, none)
unfolding validate_incoming incoming_error checks_seq has_any drop_checks acks_old acks_unsent_data
    has_all is_preestablished less_than less_than_eq
synack_admitted p i = ground arith

pub synack_received :
    (p : Peers)
    → IsPeers p
    → recv (client_syn_sent p) (synack_segment p) ≡ ran (client_established p flag_ack, none)
unfolding recv recv_after recv_valid rcv_in rcv_syn_sent finish_recv accept update_window
    window_is_newer process_ack counts_dup_ack incoming_is_dup_ack has_any reset_snd reset_rcv
    trigger_challenge_ack_satisfied update_forward seg_len is_preestablished less_than less_than_eq
    tx_data_open
synack_received p i = rw (synack_admitted p i, recv) (ground arith)

pub ack_pending :
    (p : Peers)
    → IsPeers p
    → pending_segment (client_established p flag_ack) 0 ≡ ran (some (ack_segment p))
unfolding pending_segment pending_challenge_ack has_any has_pending_retransmit plain_pending
    build_pending max_send tx_queued_data_open
ack_pending p i = ground arith

pub ack_valid :
    (p : Peers)
    → IsPeers p
    → validate_outgoing (client_established p flag_ack) (ack_segment p) ≡ none
unfolding validate_outgoing is_retransmit checks_out_seq has_any in_window in_range add seg_last
    seg_len snd_zero_window_ok
ack_valid p i = ground arith

pub ack_sent :
    (p : Peers)
    → IsPeers p
    → send (client_established p flag_ack) (ack_segment p) ≡ (client_established p 0, none)
unfolding send send_valid send_in advance_pending satisfy_challenge advance_next
    pending_challenge_ack less_than update_forward seg_len has_any
ack_sent p i = rw (ack_valid p i, send) (ground arith)

pub ack_admitted :
    (p : Peers)
    → IsPeers p
    → validate_incoming (server_synack_sent p) (ack_segment p) ≡ (server_synack_sent p, none)
unfolding validate_incoming incoming_error checks_seq has_any drop_checks acks_old acks_unsent_data
    has_all is_preestablished less_than less_than_eq in_window in_range add seg_last seg_len
    rcv_zero_window_ok
ack_admitted p i = ground arith

abbrev pub server_established : Peers → ControlBlock
server_established p = record zero_block {
  snd = record {
    iss = p.server_iss;
    una = add32 p.server_iss 1;
    nxt = add32 p.server_iss 1;
    wnd = p.client_wnd;
    mss = 0;
    wl1 = add32 p.client_iss 1;
    wl2 = add32 p.server_iss 1;
  };
  rcv = record { irs = p.client_iss; nxt = add32 p.client_iss 1; wnd = p.server_wnd };
  state = established;
}

pub ack_received :
    (p : Peers)
    → IsPeers p
    → recv (server_synack_sent p) (ack_segment p) ≡ ran (server_established p, none)
unfolding recv recv_after recv_valid rcv_in rcv_syn_rcvd finish_recv accept update_window
    window_is_newer process_ack counts_dup_ack incoming_is_dup_ack has_any has_all reset_snd
    reset_rcv trigger_challenge_ack_satisfied update_forward seg_len is_preestablished less_than
    less_than_eq tx_data_open
ack_received p i = rw (ack_admitted p i, recv) (ground arith)
