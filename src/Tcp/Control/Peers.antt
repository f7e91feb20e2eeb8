-- ===== src/Tcp/Control/Peers.antt =====
-- tcp/control.go: the blocks and segments at each step of the three-way handshake.
use lneto.Base.{◌≤◌, ◌<◌, IsU32, add32}
use lneto.Tcp.Value.{Value, Size}
use lneto.Tcp.Segment.{
  Flags, flag_ack, synack, listen, syn_rcvd, syn_sent, established, Segment, max_window,
}
use lneto.Tcp.Control.Block.{ControlBlock, zero_block, zero_snd, zero_rcv}

-- The initial sequence numbers and windows of the client and the server.
pub record Peers : Type 0 where
  pub client_iss : Value
  pub client_wnd : Size
  pub server_iss : Value
  pub server_wnd : Size

-- What the handshake needs of them: 32-bit values, and windows that are open and can be announced.
pub record IsPeers (p : Peers) : Type 0 where
  pub client_iss_u32 : IsU32 p.client_iss
  pub server_iss_u32 : IsU32 p.server_iss
  pub client_wnd_open : 0 < p.client_wnd
  pub client_wnd_fits : p.client_wnd ≤ max_window
  pub server_wnd_open : 0 < p.server_wnd
  pub server_wnd_fits : p.server_wnd ≤ max_window

-- The blocks and segments at each step.
abbrev pub client_syn_sent : Peers → ControlBlock
client_syn_sent p = record zero_block {
  snd = record zero_snd {
    iss = p.client_iss;
    una = p.client_iss;
    nxt = add32 p.client_iss 1;
    wnd = 1;
  };
  rcv = record zero_rcv { wnd = p.client_wnd };
  state = syn_sent;
}

abbrev pub server_listen : Peers → ControlBlock
server_listen p = record zero_block {
  snd = record zero_snd { iss = p.server_iss; una = p.server_iss; nxt = p.server_iss; wnd = 1 };
  rcv = record zero_rcv { wnd = p.server_wnd };
  state = listen;
}

abbrev pub server_syn_rcvd : Peers → ControlBlock
server_syn_rcvd p = record zero_block {
  snd = record {
    iss = p.server_iss;
    una = p.server_iss;
    nxt = p.server_iss;
    wnd = p.client_wnd;
    mss = 0;
    wl1 = p.client_iss;
    wl2 = 0;
  };
  rcv = record { irs = p.client_iss; nxt = add32 p.client_iss 1; wnd = p.server_wnd };
  pending0 = synack;
  state = syn_rcvd;
}

abbrev pub synack_segment : Peers → Segment
synack_segment p = record {
  seq = p.server_iss;
  ack = add32 p.client_iss 1;
  datalen = 0;
  wnd = p.server_wnd;
  flags = synack;
}

abbrev pub server_synack_sent : Peers → ControlBlock
server_synack_sent p = record zero_block {
  snd = record {
    iss = p.server_iss;
    una = p.server_iss;
    nxt = add32 p.server_iss 1;
    wnd = p.client_wnd;
    mss = 0;
    wl1 = p.client_iss;
    wl2 = 0;
  };
  rcv = record { irs = p.client_iss; nxt = add32 p.client_iss 1; wnd = p.server_wnd };
  state = syn_rcvd;
}

abbrev pub client_established : Peers → Flags → ControlBlock
client_established p pending = record zero_block {
  snd = record {
    iss = p.client_iss;
    una = add32 p.client_iss 1;
    nxt = add32 p.client_iss 1;
    wnd = p.server_wnd;
    mss = 0;
    wl1 = p.server_iss;
    wl2 = add32 p.client_iss 1;
  };
  rcv = record { irs = p.server_iss; nxt = add32 p.server_iss 1; wnd = p.client_wnd };
  pending0 = pending;
  state = established;
}

abbrev pub ack_segment : Peers → Segment
ack_segment p = record {
  seq = add32 p.client_iss 1;
  ack = add32 p.server_iss 1;
  datalen = 0;
  wnd = p.client_wnd;
  flags = flag_ack;
}
