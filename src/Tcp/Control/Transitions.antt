-- ===== src/Tcp/Control/Transitions.antt =====
-- tcp/control.go: how the operations move the connection state.
use lneto.Base.{ran, ◌≡◌, refl, sym, ap, ◌∙◌, subst, inl, inr, Option, arith}
use lneto.Tcp.Segment.{
  Error, Flags, State, closed, listen, syn_rcvd, syn_sent, established, fin_wait1, fin_wait2,
  closing, time_wait, close_wait, Segment,
}
use lneto.Tcp.Control.Block.{
  ControlBlock, abort, reset_snd, reset_rcv, trigger_challenge_ack_satisfied,
  trigger_challenge_ack_emit,
}
use lneto.Tcp.Control.Incoming.{reject, queue_ack, handle_rst, drop_checks, validate_incoming}
use lneto.Tcp.Control.Recv.{
  rcv_listen, rcv_syn_sent, rcv_syn_rcvd, rcv_established, fin_wait1_next, rcv_fin_wait1,
  rcv_fin_wait2, rcv_in, update_window, process_ack, accept, recv_valid, recv,
}
use lneto.Tcp.Control.Cases.{challenged, refused, accepted, recv_valid_inv, recv_inv}

-- The diagram of RFC 9293 §3.3.2 as the arrival of a segment drives it.
infix 40 ◌⟶◌
pub data ◌⟶◌ : State → State → Type 0 where
  stay : {s : State} → s ⟶ s
  rcv_syn : listen ⟶ syn_rcvd
  rcv_syn_ack : syn_sent ⟶ established
  rcv_syn_both : syn_sent ⟶ syn_rcvd
  rcv_ack : syn_rcvd ⟶ established
  rcv_rst : syn_rcvd ⟶ listen
  rcv_fin : established ⟶ close_wait
  rcv_fin_ack : fin_wait1 ⟶ time_wait
  rcv_fin_early : fin_wait1 ⟶ closing
  rcv_ack_fin : fin_wait1 ⟶ fin_wait2
  rcv_fin_late : fin_wait2 ⟶ time_wait
  rcv_last : closing ⟶ time_wait
  drop_block : {s : State} → s ⟶ closed

ruleset edges = (
  stay, rcv_syn, rcv_syn_ack, rcv_syn_both, rcv_ack, rcv_rst, rcv_fin, rcv_fin_ack, rcv_fin_early,
  rcv_ack_fin, rcv_fin_late, rcv_last, drop_block,
)

validate_incoming-⟶ :
    (tcb : ControlBlock) (seg : Segment) → tcb.state ⟶ (validate_incoming tcb seg).0.state
unfolding validate_incoming reject handle_rst drop_checks abort trigger_challenge_ack_emit queue_ack
    reset_snd reset_rcv
validate_incoming-⟶ tcb seg = grind (arith, edges)

pub accept_state :
    (tcb : ControlBlock) (p : Flags) (seg : Segment) → (accept tcb p seg).state ≡ tcb.state
unfolding accept trigger_challenge_ack_satisfied update_window process_ack
accept_state tcb p seg = ground arith

handler-⟶ :
    (s : State) (tcb : ControlBlock) (seg : Segment) {t : ControlBlock} {p : Flags}
    {e : Option Error}
    → tcb.state ≡ s
    → rcv_in s tcb seg ≡ ran (t, p, e)
    → s ⟶ t.state
unfolding rcv_in rcv_listen rcv_syn_sent rcv_syn_rcvd rcv_established rcv_fin_wait1 fin_wait1_next
    rcv_fin_wait2 reset_snd reset_rcv abort
handler-⟶ listen tcb seg w h = grind (arith, edges)
handler-⟶ _ tcb seg w h = grind (arith, edges)

recv_valid-⟶ :
    (tcb : ControlBlock) (seg : Segment) {t : ControlBlock} {e : Option Error}
    → recv_valid tcb seg ≡ ran (t, e)
    → tcb.state ⟶ t.state
unfolding queue_ack trigger_challenge_ack_emit
recv_valid-⟶ tcb seg h = elim (recv_valid_inv tcb seg h) [
  | challenged _ te ee ↦ grind (arith, edges)
  | refused _ p he ee ↦ handler-⟶ tcb.state tcb seg refl he
  | accepted _ u p he te ee ↦
      subst (λ x. tcb.state ⟶ x)
        (sym (ap (λ (b : ControlBlock). b.state) te ∙ accept_state u p seg))
        (handler-⟶ tcb.state tcb seg refl he)
]

-- Whatever segment arrives, in whatever state the block is, `Recv` moves the state along an edge
-- of the diagram or not at all.
pub recv-⟶ :
    (tcb : ControlBlock) (seg : Segment) {t : ControlBlock} {e : Option Error}
    → recv tcb seg ≡ ran (t, e)
    → tcb.state ⟶ t.state
recv-⟶ tcb seg {t} h = elim (recv_inv tcb seg h) [
  | inl (v, _) ↦
      subst (λ (x : ControlBlock × Option Error). tcb.state ⟶ x.0.state) v
        (validate_incoming-⟶ tcb seg)
  | inr (_, v) ↦ recv_valid-⟶ tcb seg v
]
