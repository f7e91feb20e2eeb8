-- ===== src/Tcp/Control/Errors.antt =====
-- tcp/control.go: what a segment that Recv refuses leaves behind, and when Recv panics.
use lneto.Base.{
  Ran, ran, panicked, ◌≡◌, refl, ap, ◌∙◌, subst, ◌≢◌, ◌↔◌, ◌⊎◌, inl, inr, false, not, ◌&&◌, Option,
  none, some, arith, Bool-cases, Option-cases,
}
use lneto.Tcp.Value.{Value}
use lneto.Tcp.Segment.{
  Error, drop_segment, net_closed, Flags, flag_syn, flag_rst, has_any, State, closed, listen,
  time_wait, is_preestablished, Segment,
}
use lneto.Tcp.Control.Block.{ControlBlock, zero_block, abort, trigger_challenge_ack_emit}
use lneto.Tcp.Control.Incoming.{incoming_error, reject, handle_rst, drop_checks, validate_incoming}
use lneto.Tcp.Control.Recv.{
  Handled, rcv_listen, rcv_syn_sent, rcv_syn_rcvd, rcv_established, rcv_fin_wait1, rcv_fin_wait2,
  rcv_in, finish_recv, recv_valid, recv,
}
use lneto.Tcp.Control.Cases.{
  validate_incoming_same, challenged, refused, accepted, recv_valid_inv, recv_inv,
}

-- All but the challenge counter agrees.
pub record SameButChallenge (t tcb : ControlBlock) : Type 0 where
  pub snd_same : t.snd ≡ tcb.snd
  pub rcv_same : t.rcv ≡ tcb.rcv
  pub state_same : t.state ≡ tcb.state
  pub pending0_same : t.pending0 ≡ tcb.pending0
  pub pending1_same : t.pending1 ≡ tcb.pending1
  pub rst_ptr_same : t.rst_ptr ≡ tcb.rst_ptr
  pub dupack_same : t.dupack ≡ tcb.dupack
  pub n_retransmit_same : t.n_retransmit ≡ tcb.n_retransmit

reject_same :
    (tcb : ControlBlock) (seg : Segment) (err e : Error)
    → (reject tcb seg err).1 ≡ some e
    → e ≢ net_closed
    → SameButChallenge (reject tcb seg err).0 tcb
unfolding reject trigger_challenge_ack_emit
reject_same tcb seg err e h nn = ground arith

handle_rst_error :
    (tcb : ControlBlock) (seq : Value) (e : Error)
    → (handle_rst tcb seq).1 ≡ some e
    → (e ≡ drop_segment) ⊎ (e ≡ net_closed)
unfolding handle_rst
handle_rst_error tcb seq e h = ground arith

drop_checks_error :
    (tcb : ControlBlock) (seg : Segment) (e : Error)
    → (drop_checks tcb seg).1 ≡ some e
    → e ≡ drop_segment
unfolding drop_checks
drop_checks_error tcb seg e h = ground arith

-- Past the first tests, the only errors are the silent drop and net.ErrClosed.
acceptable_error :
    (tcb : ControlBlock) (seg : Segment) (e : Error)
    → incoming_error tcb seg ≡ none
    → (validate_incoming tcb seg).1 ≡ some e
    → (e ≡ drop_segment) ⊎ (e ≡ net_closed)
unfolding validate_incoming
acceptable_error tcb seg e n h = elim (Bool-cases (has_any seg.flags flag_rst)) [
  | inl y ↦ handle_rst_error tcb seg.seq e (rw (n, y, validate_incoming) at h)
  | inr y ↦ inl (drop_checks_error tcb seg e (rw (n, y, validate_incoming) at h))
]

validate_refused :
    (tcb : ControlBlock) (seg : Segment) (e : Error)
    → (validate_incoming tcb seg).1 ≡ some e
    → e ≢ drop_segment
    → e ≢ net_closed
    → SameButChallenge (validate_incoming tcb seg).0 tcb
unfolding validate_incoming
validate_refused tcb seg e h nd nn = elim (Option-cases (incoming_error tcb seg)) [
  | inl n ↦ elim (acceptable_error tcb seg e n h) [ inl d ↦ absurd (nd d) | inr d ↦ absurd (nn d) ]
  | inr (err, y) ↦
      rw (y, validate_incoming) (reject_same tcb seg err e (rw (y, validate_incoming) at h) nn)
]

validate_closed :
    (tcb : ControlBlock) (seg : Segment)
    → (validate_incoming tcb seg).1 ≡ some net_closed
    → (validate_incoming tcb seg).0 ≡ zero_block
unfolding validate_incoming reject handle_rst drop_checks incoming_error abort
validate_closed tcb seg h = ground arith

pub handler_refused :
    (s : State) (tcb : ControlBlock) (seg : Segment) {t : ControlBlock} {p : Flags} {e : Error}
    → rcv_in s tcb seg ≡ ran (t, p, some e)
    → (t ≡ tcb) × (e ≢ drop_segment) × (e ≢ net_closed)
unfolding rcv_in rcv_listen rcv_syn_sent rcv_syn_rcvd rcv_established rcv_fin_wait1 rcv_fin_wait2
handler_refused listen tcb seg h = ground arith
handler_refused _ tcb seg h = ground arith

-- When `Recv` refuses a segment with any error but the silent drop and net.ErrClosed, all of the
-- block but its challenge counter is as before.
pub recv_refused_same :
    (tcb : ControlBlock) (seg : Segment) {t : ControlBlock} (e : Error)
    → recv tcb seg ≡ ran (t, some e)
    → e ≢ drop_segment
    → e ≢ net_closed
    → SameButChallenge t tcb
recv_refused_same tcb seg {t} e h nd nn = elim (recv_inv tcb seg h) [
  | inl (v, _) ↦
      subst (λ (x : ControlBlock × Option Error). SameButChallenge x.0 tcb) v
        (validate_refused tcb seg e (ap (λ (x : ControlBlock × Option Error). x.1) v) nd nn)
  | inr (_, v) ↦ elim (recv_valid_inv tcb seg v) [
    | challenged _ te ee ↦ absurd (ground arith)
    | refused _ p he ee ↦ ground (arith, handler_refused tcb.state tcb seg he)
    | accepted _ u p he te ee ↦ absurd (cc)
  ]
]

-- When `Recv` returns net.ErrClosed, the block is the zero block: nothing of the connection is left.
pub recv-closed_zero :
    (tcb : ControlBlock) (seg : Segment) {t : ControlBlock}
    → recv tcb seg ≡ ran (t, some net_closed)
    → t ≡ zero_block
recv-closed_zero tcb seg {t} h = elim (recv_inv tcb seg h) [
  | inl (v, _) ↦
      subst (λ (x : ControlBlock × Option Error). x.0 ≡ zero_block) v
        (validate_closed tcb seg (ap (λ (x : ControlBlock × Option Error). x.1) v))
  | inr (_, v) ↦ elim (recv_valid_inv tcb seg v) [
    | challenged _ te ee ↦ absurd (cc)
    | refused _ p he ee ↦ absurd ((handler_refused tcb.state tcb seg he).2 refl)
    | accepted _ u p he te ee ↦ absurd (cc)
  ]
]

finish_recv_panics : (seg : Segment) (r : Ran Handled) → finish_recv seg r ≡ panicked → r ≡ panicked
unfolding finish_recv
finish_recv_panics seg panicked h = refl
finish_recv_panics seg (ran (u, p, some err)) h = cc
finish_recv_panics seg (ran (u, p, none)) h = cc

rcv_in_panics :
    (s : State) (tcb : ControlBlock) (seg : Segment)
    → rcv_in s tcb seg ≡ panicked
    → (s ≡ time_wait) ⊎ (s ≡ closed)
unfolding rcv_in
rcv_in_panics listen tcb seg h = cc
rcv_in_panics _ tcb seg h = ground arith

closed_refused :
    (tcb : ControlBlock) (seg : Segment) → tcb.state ≡ closed → (validate_incoming tcb seg).1 ≢ none
unfolding validate_incoming incoming_error reject
closed_refused tcb seg h = ground arith

recv_valid_panics :
    (tcb : ControlBlock) (seg : Segment)
    → recv_valid tcb seg ≡ panicked
    → ((tcb.state ≡ time_wait) ⊎ (tcb.state ≡ closed))
      × ((has_any seg.flags flag_syn && not (is_preestablished tcb.state)) ≡ false)
unfolding recv_valid
recv_valid_panics tcb seg h =
    elim (Bool-cases (has_any seg.flags flag_syn && not (is_preestablished tcb.state))) [
      | inl y ↦ absurd (ground arith)
      | inr n ↦ (
        rcv_in_panics tcb.state tcb seg
            (finish_recv_panics seg (rcv_in tcb.state tcb seg) (rw n at h)),
        n,
      )
    ]

recv_panics :
    (tcb : ControlBlock) (seg : Segment)
    → recv tcb seg ≡ panicked
    → ((validate_incoming tcb seg).1 ≡ none) × (recv_valid tcb seg ≡ panicked)
unfolding recv
recv_panics tcb seg h = ground (arith, validate_incoming_same tcb seg)

time_wait_panics :
    (tcb : ControlBlock) (seg : Segment)
    → tcb.state ≡ time_wait
    → has_any seg.flags flag_syn ≡ false
    → recv_valid tcb seg ≡ panicked
unfolding recv_valid rcv_in finish_recv
time_wait_panics tcb seg h n = ground arith

recv_of_valid :
    (tcb : ControlBlock) (seg : Segment)
    → (validate_incoming tcb seg).1 ≡ none
    → recv tcb seg ≡ recv_valid tcb seg
unfolding recv
recv_of_valid tcb seg h = ground (arith, validate_incoming_same tcb seg)

-- `Recv` panics exactly when the block is in TIME-WAIT and the segment passes validation and
-- carries no SYN; in every other case it returns.
pub recv_panics_iff :
    (tcb : ControlBlock) (seg : Segment)
    → (recv tcb seg ≡ panicked) ↔ (
        (tcb.state ≡ time_wait)
        × ((validate_incoming tcb seg).1 ≡ none)
        × (has_any seg.flags flag_syn ≡ false))
unfolding is_preestablished
recv_panics_iff tcb seg = (
  (λ h.
      let (v, r) = recv_panics tcb seg h in
      ground (arith, recv_valid_panics tcb seg r, closed_refused tcb seg)),
  λ (w, v, n). recv_of_valid tcb seg v ∙ time_wait_panics tcb seg w n,
)
