-- ===== src/Tcp/Control/Refusals.antt =====
-- tcp/control.go: a segment that `Recv` refuses does not advance the receive space.
use lneto.Base.{◌≡◌, subst, ◌⊎◌, inl, inr, false, Option, some, arith, Option-cases, ran}
use lneto.Tcp.Segment.{Error, closed, Segment, flag_rst, has_any}
use lneto.Tcp.Control.Block.{ControlBlock, abort, reset_snd, trigger_challenge_ack_emit}
use lneto.Tcp.Control.Incoming.{incoming_error, reject, queue_ack, drop_checks, validate_incoming}
use lneto.Tcp.Control.Recv.{recv}
use lneto.Tcp.Control.Cases.{challenged, refused, accepted, recv_valid_inv, recv_inv}
use lneto.Tcp.Control.Errors.{handler_refused}

-- The receive space stays, or the connection is gone.
unfoldable pub Unmoved : ControlBlock → ControlBlock → Type 0
Unmoved t tcb = (t.rcv ≡ tcb.rcv) ⊎ (t.state ≡ closed)

reject-Unmoved :
    (tcb : ControlBlock) (seg : Segment) (err : Error) → Unmoved (reject tcb seg err).0 tcb
unfolding Unmoved reject abort trigger_challenge_ack_emit
reject-Unmoved tcb seg err = ground arith

drop_checks-Unmoved : (tcb : ControlBlock) (seg : Segment) → Unmoved (drop_checks tcb seg).0 tcb
unfolding Unmoved drop_checks queue_ack reset_snd
drop_checks-Unmoved tcb seg = ground arith

validate_incoming-Unmoved :
    (tcb : ControlBlock) (seg : Segment)
    → has_any seg.flags flag_rst ≡ false
    → Unmoved (validate_incoming tcb seg).0 tcb
unfolding validate_incoming
validate_incoming-Unmoved tcb seg n = elim (Option-cases (incoming_error tcb seg)) [
  | inl o ↦ rw (o, n, validate_incoming) (drop_checks-Unmoved tcb seg)
  | inr (err, s) ↦ rw (s, validate_incoming) (reject-Unmoved tcb seg err)
]

-- A segment without RST that `Recv` refuses leaves the receive space as it is, or closes the
-- connection.
pub recv_refused-Unmoved :
    (tcb : ControlBlock) (seg : Segment) {t : ControlBlock} (e : Error)
    → has_any seg.flags flag_rst ≡ false
    → recv tcb seg ≡ ran (t, some e)
    → Unmoved t tcb
unfolding Unmoved queue_ack trigger_challenge_ack_emit
recv_refused-Unmoved tcb seg {t} e n h = elim (recv_inv tcb seg h) [
  | inl (v, _) ↦
      subst (λ (x : ControlBlock × Option Error). Unmoved x.0 tcb) v
        (validate_incoming-Unmoved tcb seg n)
  | inr (_, v) ↦ elim (recv_valid_inv tcb seg v) [
    | challenged _ te ee ↦ ground arith
    | refused _ p he ee ↦ ground (arith, (handler_refused tcb.state tcb seg he).0)
    | accepted _ u p he te ee ↦ absurd (cc)
  ]
]
