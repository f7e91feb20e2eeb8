-- ===== src/Tcp/Control/Cases.antt =====
-- tcp/control.go: the ways in which a call of Recv ends, as a case analysis for proofs.
use lneto.Base.{
  Ran, ran, panicked, ◌≡◌, refl, subst, ◌≢◌, ◌⊎◌, inl, inr, true, false, not, ◌&&◌, Option, none,
  some, arith, Bool-cases,
}
use lneto.Tcp.Segment.{Error, drop_segment, Flags, flag_syn, has_any, is_preestablished, Segment}
use lneto.Tcp.Control.Block.{ControlBlock, trigger_challenge_ack_emit}
use lneto.Tcp.Control.Incoming.{reject, queue_ack, handle_rst, drop_checks, validate_incoming}
use lneto.Tcp.Control.Recv.{Handled, rcv_in, accept, finish_recv, recv_valid, recv_after, recv}

-- What validation lets through it leaves as it was.
pub validate_incoming_same :
    (tcb : ControlBlock) (seg : Segment)
    → (validate_incoming tcb seg).1 ≡ none
    → (validate_incoming tcb seg).0 ≡ tcb
unfolding validate_incoming reject handle_rst drop_checks
validate_incoming_same tcb seg h = ground arith

-- The three ways in which `Recv` ends once validation has passed.
pub data RecvValid (tcb : ControlBlock) (seg : Segment) (t : ControlBlock) (e : Option Error)
    : Type 0 where
  challenged :
      (has_any seg.flags flag_syn && not (is_preestablished tcb.state)) ≡ true
      → t ≡ queue_ack (trigger_challenge_ack_emit tcb)
      → e ≡ some drop_segment
      → RecvValid tcb seg t e
  refused :
      (has_any seg.flags flag_syn && not (is_preestablished tcb.state)) ≡ false
      → (p : Flags) → rcv_in tcb.state tcb seg ≡ ran (t, p, e)
      → e ≢ none
      → RecvValid tcb seg t e
  accepted :
      (has_any seg.flags flag_syn && not (is_preestablished tcb.state)) ≡ false
      → (u : ControlBlock) (p : Flags) → rcv_in tcb.state tcb seg ≡ ran (u, p, none)
      → t ≡ accept u p seg
      → e ≡ none
      → RecvValid tcb seg t e

finish_recv_inv :
    (tcb : ControlBlock) (seg : Segment) (r : Ran Handled) {t : ControlBlock} {e : Option Error}
    → (has_any seg.flags flag_syn && not (is_preestablished tcb.state)) ≡ false
    → rcv_in tcb.state tcb seg ≡ r
    → finish_recv seg r ≡ ran (t, e)
    → RecvValid tcb seg t e
unfolding finish_recv
finish_recv_inv tcb seg panicked n w h = absurd (cc)
finish_recv_inv tcb seg (ran (u, p, some err)) n w h = refused n p (ground arith) (ground arith)
finish_recv_inv tcb seg (ran (u, p, none)) n w h = accepted n u p w (ground arith) (ground arith)

pub recv_valid_inv :
    (tcb : ControlBlock) (seg : Segment) {t : ControlBlock} {e : Option Error}
    → recv_valid tcb seg ≡ ran (t, e)
    → RecvValid tcb seg t e
unfolding recv_valid
recv_valid_inv tcb seg h =
    elim (Bool-cases (has_any seg.flags flag_syn && not (is_preestablished tcb.state))) [
      | inl y ↦ challenged y (ground arith) (ground arith)
      | inr n ↦ finish_recv_inv tcb seg (rcv_in tcb.state tcb seg) n refl (rw n at h)
    ]

recv_after_inv :
    (seg : Segment) (v : ControlBlock × Option Error) {t : ControlBlock} {e : Option Error}
    → recv_after seg v ≡ ran (t, e)
    → ((v ≡ (t, e)) × (e ≢ none)) ⊎ ((v.1 ≡ none) × (recv_valid v.0 seg ≡ ran (t, e)))
unfolding recv_after
recv_after_inv seg (u, some err) h = inl (ground arith, ground arith)
recv_after_inv seg (u, none) h = inr (refl, h)

-- `Recv` ends in validation, which then returns the error, or goes on with the block unchanged.
pub recv_inv :
    (tcb : ControlBlock) (seg : Segment) {t : ControlBlock} {e : Option Error}
    → recv tcb seg ≡ ran (t, e)
    → ((validate_incoming tcb seg ≡ (t, e)) × (e ≢ none))
      ⊎ (((validate_incoming tcb seg).1 ≡ none) × (recv_valid tcb seg ≡ ran (t, e)))
unfolding recv
recv_inv tcb seg {t} {e} h = elim (recv_after_inv seg (validate_incoming tcb seg) h) [
  | inl p ↦ inl p
  | inr (n, v) ↦
      inr (n, subst (λ b. recv_valid b seg ≡ ran (t, e)) (validate_incoming_same tcb seg n) v)
]
