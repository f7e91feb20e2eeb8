-- ===== src/Tcp/Control/Receiving.antt =====
-- tcp/control.go: what Recv does with a segment that it accepts.
use lneto.Base.{
  ran, ◌^◌, ◌≤◌, ◌<◌, ◌≡◌, refl, ◌≢◌, ◌⊎◌, inl, inr, Bool, true, false, none, arith, Bool-cases,
  Option-cases, IsU32, add32,
}
use lneto.Tcp.Value.{Value, less_than, less_than_eq, sizeof, update_forward}
use lneto.Tcp.Segment.{
  Error, Flags, flag_rst, has_any, State, listen, established, fin_wait1, fin_wait2, closing,
  close_wait, is_preestablished, Segment, seg_len,
}
use lneto.Tcp.Control.Block.{ControlBlock, in_flight, trigger_challenge_ack_satisfied}
use lneto.Tcp.Control.Incoming.{checks_seq, incoming_error, reject, handle_rst, validate_incoming}
use lneto.Tcp.Control.Recv.{
  rcv_established, rcv_fin_wait1, rcv_fin_wait2, rcv_in, update_window, process_ack, accept, recv,
}
use lneto.Tcp.Control.Cases.{challenged, refused, accepted, recv_valid_inv, recv_inv}

-- The states in which both sides have exchanged sequence numbers and data may still arrive.
abbrev pub is_transferring : State → Bool
is_transferring established = true
is_transferring fin_wait1 = true
is_transferring fin_wait2 = true
is_transferring closing = true
is_transferring close_wait = true
is_transferring _ = false

handle_rst-ne-none : (tcb : ControlBlock) (seq : Value) → (handle_rst tcb seq).1 ≢ none
unfolding handle_rst
handle_rst-ne-none tcb seq = ground arith

incoming_in_order :
    (tcb : ControlBlock) (seg : Segment)
    → is_transferring tcb.state ≡ true
    → incoming_error tcb seg ≡ none
    → has_any seg.flags flag_rst ≡ false
    → (seg.seq ≡ tcb.rcv.nxt)
unfolding incoming_error checks_seq is_preestablished
incoming_in_order tcb seg w h r = ground arith

reject-ne-none : (tcb : ControlBlock) (seg : Segment) (e : Error) → (reject tcb seg e).1 ≢ none
unfolding reject
reject-ne-none tcb seg e = ground arith

valid_in_order :
    (tcb : ControlBlock) (seg : Segment)
    → is_transferring tcb.state ≡ true
    → (validate_incoming tcb seg).1 ≡ none
    → (seg.seq ≡ tcb.rcv.nxt) × (has_any seg.flags flag_rst ≡ false)
unfolding validate_incoming
valid_in_order tcb seg w h = elim (Option-cases (incoming_error tcb seg)) [
  | inr (e, y) ↦ absurd (reject-ne-none tcb seg e (rw (y, validate_incoming) at h))
  | inl n ↦ elim (Bool-cases (has_any seg.flags flag_rst)) [
    | inl r ↦ absurd (handle_rst-ne-none tcb seg.seq (rw (n, r, validate_incoming) at h))
    | inr r ↦ (incoming_in_order tcb seg w n r, r)
  ]
]

handler_keeps :
    (s : State) (tcb : ControlBlock) (seg : Segment) {u : ControlBlock} {p : Flags}
    → is_transferring s ≡ true
    → rcv_in s tcb seg ≡ ran (u, p, none)
    → (u.snd ≡ tcb.snd) × (u.rcv ≡ tcb.rcv)
unfolding rcv_in rcv_established rcv_fin_wait1 rcv_fin_wait2
handler_keeps listen tcb seg w h = cc
handler_keeps _ tcb seg w h = ground arith

-- Where snd.UNA may go: nowhere, or forward to an acknowledgement that does not pass snd.NXT.
abbrev pub UnaStep : ControlBlock → Segment → Value → Type 0
UnaStep tcb seg una' =
    (una' ≡ tcb.snd.una)
    ⊎ ((una' ≡ seg.ack)
        × (less_than tcb.snd.una seg.ack ≡ true)
        × (less_than_eq seg.ack tcb.snd.nxt ≡ true))

accept_lem :
    (tcb : ControlBlock) (p : Flags) (seg : Segment)
    → ((accept tcb p seg).rcv.nxt ≡ add32 tcb.rcv.nxt (seg_len seg))
      × ((accept tcb p seg).rcv.wnd ≡ tcb.rcv.wnd)
      × ((accept tcb p seg).snd.nxt ≡ tcb.snd.nxt)
      × ((accept tcb p seg).challenge_acks ≡ 0)
      × UnaStep tcb seg (accept tcb p seg).snd.una
unfolding accept trigger_challenge_ack_satisfied update_window process_ack update_forward
accept_lem tcb p seg = ground arith

-- What an accepted segment does to the sequence spaces.
pub record InOrder (tcb : ControlBlock) (seg : Segment) (t : ControlBlock) : Type 0 where
  pub in_order : seg.seq ≡ tcb.rcv.nxt
  pub rcv_nxt : t.rcv.nxt ≡ add32 tcb.rcv.nxt (seg_len seg)
  pub rcv_wnd : t.rcv.wnd ≡ tcb.rcv.wnd
  pub snd_nxt : t.snd.nxt ≡ tcb.snd.nxt
  pub challenges : t.challenge_acks ≡ 0
  pub una : UnaStep tcb seg t.snd.una

accepted-InOrder :
    (tcb : ControlBlock) (seg : Segment) (u : ControlBlock) (p : Flags) {t : ControlBlock}
    → seg.seq ≡ tcb.rcv.nxt
    → (u.snd ≡ tcb.snd) × (u.rcv ≡ tcb.rcv)
    → t ≡ accept u p seg
    → InOrder tcb seg t
accepted-InOrder tcb seg u p o k te = ground (arith, accept_lem u p seg)

-- While data may flow (ESTABLISHED, FIN-WAIT-1, FIN-WAIT-2, CLOSING, CLOSE-WAIT), a segment that
-- `Recv` accepts starts exactly at rcv.NXT; rcv.NXT advances by its length, modulo 2 ^ 32, rcv.WND
-- and snd.NXT stay, the challenge counter is reset, and snd.UNA stays or moves forward to seg.ACK,
-- which does not pass snd.NXT.
pub recv-InOrder :
    (tcb : ControlBlock) (seg : Segment) {t : ControlBlock}
    → is_transferring tcb.state ≡ true
    → recv tcb seg ≡ ran (t, none)
    → InOrder tcb seg t
recv-InOrder tcb seg w h = elim (recv_inv tcb seg h) [
  | inl (_, ne) ↦ absurd (ne refl)
  | inr (v, r) ↦ elim (recv_valid_inv tcb seg r) [
    | challenged _ te ee ↦ absurd (cc)
    | refused _ p he ee ↦ absurd (ee refl)
    | accepted _ u p he te ee ↦
        accepted-InOrder tcb seg u p (valid_in_order tcb seg w v).0
          (handler_keeps tcb.state tcb seg w he) te
  ]
]

una_in_flight :
    (una ack nxt : Value)
    → IsU32 una
    → IsU32 ack
    → IsU32 nxt
    → sizeof una nxt < 2 ^ 31
    → sizeof una ack ≢ 2 ^ 31
    → less_than una ack ≡ true
    → less_than_eq ack nxt ≡ true
    → sizeof ack nxt ≤ sizeof una nxt
unfolding less_than less_than_eq sizeof
una_in_flight una ack nxt hu ha hn f o p q = ground arith

-- A segment that `Recv` accepts while data may flow never makes the bytes in flight grow, if fewer
-- than half of the sequence numbers are in flight and seg.ACK is not opposite snd.UNA on the circle.
pub recv-in_flight :
    (tcb : ControlBlock) (seg : Segment) {t : ControlBlock}
    → IsU32 tcb.snd.una
    → IsU32 seg.ack
    → IsU32 tcb.snd.nxt
    → is_transferring tcb.state ≡ true
    → in_flight tcb.snd < 2 ^ 31
    → sizeof tcb.snd.una seg.ack ≢ 2 ^ 31
    → recv tcb seg ≡ ran (t, none)
    → in_flight t.snd ≤ in_flight tcb.snd
unfolding in_flight
recv-in_flight tcb seg hu ha hn w f o h =
    let i = recv-InOrder tcb seg w h in
    elim i.una [
      | inl e ↦ rw (e, i.snd_nxt) (omega arith)
      | inr (e, p, q) ↦
          rw (e, i.snd_nxt) (una_in_flight tcb.snd.una seg.ack tcb.snd.nxt hu ha hn f o p q)
    ]
