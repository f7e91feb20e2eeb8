-- ===== src/Tcp/Control/Handshake.antt =====
-- tcp/control.go: the three-way handshake between a listening block and an active one.
use lneto.Base.{◌≡◌, ap, ap₂, ◌∙◌, false, Option, none, some, arith, add32, Ran, ran}
use lneto.Tcp.Segment.{Error, established, Segment, client_syn_segment}
use lneto.Tcp.Control.Block.{
  ControlBlock, zero_block, open_block, pending_challenge_ack, has_pending_retransmit, has_pending,
}
use lneto.Tcp.Control.Recv.{recv}
use lneto.Tcp.Control.Send.{send, pending_segment}
use mathlib.Core.Option
use lneto.Tcp.Control.Peers.{Peers, IsPeers, synack_segment, client_established, ack_segment}
use lneto.Tcp.Control.Steps.{
  opened, syn_sent_lem, syn_received, synack_pending, synack_sent, synack_received, ack_pending,
  ack_sent, server_established, ack_received,
}

-- Both ends of a connection, the active one first.
abbrev pub Ends : Type 0
Ends = ControlBlock × ControlBlock

-- `b` receives what `a` has sent; `none` unless both calls succeed.
deliver : ControlBlock × Option Error → Ran (ControlBlock × Option Error) → Option Ends
deliver (a, none) (ran (b, none)) = some (a, b)
deliver _ _ = none

-- What `a` has pending is sent, and `b` receives it.
transmit : Ran (Option Segment) → ControlBlock → ControlBlock → Option Ends
transmit (ran (some seg)) a b = deliver (send a seg) (recv b seg)
transmit _ a b = none

answer : Option Ends → Option Ends
answer none = none
answer (some (a, b)) = Option.map (λ (e : Ends). (e.1, e.0)) (transmit (pending_segment b 0) b a)

-- The server opens, the client sends its SYN, the server answers, the client answers.
pub connect : Peers → Option Ends
connect p =
    let syn = client_syn_segment p.client_iss p.client_wnd in
    let (server, err) = open_block zero_block p.server_iss p.server_wnd in
    elim (answer (deliver (send zero_block syn) (recv server syn))) [
      | none ↦ none
      | some (c, s) ↦ transmit (pending_segment c 0) c s
    ]

pub record Agree (p : Peers) (c s : ControlBlock) : Type 0 where
  pub client_open : c.state ≡ established
  pub server_open : s.state ≡ established
  pub client_to_server : (c.snd.nxt ≡ s.rcv.nxt) × (c.snd.nxt ≡ add32 p.client_iss 1)
  pub server_to_client : (s.snd.nxt ≡ c.rcv.nxt) × (s.snd.nxt ≡ add32 p.server_iss 1)
  pub nothing_in_flight : (c.snd.una ≡ c.snd.nxt) × (s.snd.una ≡ s.snd.nxt)
  pub windows : (c.snd.wnd ≡ p.server_wnd) × (s.snd.wnd ≡ p.client_wnd)
  pub nothing_pending : (has_pending c ≡ false) × (has_pending s ≡ false)

deliver_lem :
    (a b : ControlBlock) (seg : Segment) {a' b' : ControlBlock}
    → send a seg ≡ (a', none)
    → recv b seg ≡ ran (b', none)
    → deliver (send a seg) (recv b seg) ≡ some (a', b')
unfolding deliver
deliver_lem a b seg p q = ap₂ deliver p q

transmit_lem :
    (a b : ControlBlock) (seg : Segment) {a' b' : ControlBlock}
    → pending_segment a 0 ≡ ran (some seg)
    → send a seg ≡ (a', none)
    → recv b seg ≡ ran (b', none)
    → transmit (pending_segment a 0) a b ≡ some (a', b')
unfolding transmit
transmit_lem a b seg h p q = ap (λ r. transmit r a b) h ∙ deliver_lem a b seg p q

connect_lem :
    (p : Peers) → IsPeers p → connect p ≡ some (client_established p 0, server_established p)
unfolding connect answer
connect_lem p i =
    rw (connect, opened p i)
      (rw
        (
          deliver_lem _ _ (client_syn_segment p.client_iss p.client_wnd) (syn_sent_lem p i)
              (syn_received p i),
          answer,
        )
        (rw
          (transmit_lem _ _ (synack_segment p) (synack_pending p i) (synack_sent p i)
            (synack_received p i))
          (transmit_lem _ _ (ack_segment p) (ack_pending p i) (ack_sent p i) (ack_received p i))))

-- For all initial sequence numbers, and all windows that are open and can be announced, a listening
-- block and an active one that exchange the segments which `PendingSegment` builds after the SYN
-- both end ESTABLISHED. Each end's rcv.NXT is the other's snd.NXT, one past its ISS, nothing is in
-- flight, each end knows the other's window, and neither has a segment pending.
pub connect-Agree :
    (p : Peers)
    → IsPeers p
    → (c : ControlBlock) × (s : ControlBlock) × (connect p ≡ some (c, s)) × Agree p c s
unfolding has_pending pending_challenge_ack has_pending_retransmit
connect-Agree p i = (client_established p 0, server_established p, connect_lem p i, ground arith)
