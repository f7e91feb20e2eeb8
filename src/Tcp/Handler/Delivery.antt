-- ===== src/Tcp/Handler/Delivery.antt =====
-- tcp/handler.go: a data segment of the peer's stream, whatever its place, keeps the receive side
-- in step with the stream.
use lneto.Base.{
  ℕ, ◌≤◌, ◌≡◌, refl, ap, ap₂, ◌∙◌, inl, inr, true, false, not, ◌&&◌, Option, none, some, ◌++◌,
  arith, ltb, ◌==◌, if◌then◌else◌, length, Ran, ran, panicked,
}
use lneto.Tcp.Value.{Value, add}
use lneto.Tcp.Segment.{closed, ◌is◌, Segment}
use lneto.Tcp.Control.Block.{ControlBlock}
use lneto.Tcp.Control.Refusals.{Unmoved, recv_refused-Unmoved}
use lneto.Tcp.Control.Receiving.{is_transferring, recv-InOrder}
use lneto.Tcp.Control.Errors.{recv_panics_iff}
use lneto.Internal.Ring.{Ring}
use lneto.Internal.Ring.Line.{contents}
use lneto.Tcp.Reassembly.{enabled}
use lneto.Tcp.Reassembly.Stream.{bytes, length-bytes}
use lneto.Tcp.Frame.{Frame}
use lneto.Tcp.Handler.{Error, buffer_full, net_closed, scb, Handler}
use lneto.Tcp.Handler.Policy.{Policy}
use lneto.Tcp.Handler.Receive.{handle_out_of_order}
use lneto.Tcp.Handler.Accept.{recv_admitted, recv_in_order, recv_kept}
use lneto.Tcp.Handler.OutOfOrder.{InStep, InStep-subst, handle_out_of_order-Kept}
use lneto.Tcp.Handler.InOrder.{IsData, data_flags}
use lneto.Tcp.Control.Recv
use lneto.Tcp.Segment
use lneto.Internal.Ring
use lneto.Tcp.Handler.Outcome.{
  closed_state, Delivered, nothing_new, gone, Ends, Ends-if, accepted_data,
}

module _ {ℓ} {P : Type ℓ} where
  refused_full :
      (stream : Value → ℕ) (h : Handler P) (seg : Segment) (n : ℕ)
      → InStep stream h.scb.rcv.nxt h.buf_rx h.reasm
      → Ends stream h seg n (ran (h, some buffer_full))
  unfolding Ends
  refused_full stream h seg n s = (
    h,
    some buffer_full,
    refl,
    nothing_new stream h h seg n (some buffer_full) refl (inr (s, refl)) s.nxt_in
        (λ c. absurd (ground arith)),
  )

  -- A segment that was left to the control block, by what this returned.
  admitted :
      (steer : Policy P) (stream : Value → ℕ) (h : Handler P) (tfrm : Frame) (seg : Segment) (n : ℕ)
      (r : Ran (ControlBlock × Option Segment.Error))
      → InStep stream h.scb.rcv.nxt h.buf_rx h.reasm
      → h.shutdown_rx ≡ false
      → is_transferring h.scb.state ≡ true
      → IsData seg n
      → n ≤ Ring.free h.buf_rx
      → Recv.recv h.scb seg ≡ r
      → Ends stream h seg n (recv_admitted steer h tfrm seg (bytes stream seg.seq n) r)
  unfolding Ends recv_admitted add Unmoved
  admitted steer stream h tfrm seg n panicked s sh live d f e =
      let (w, v, _) = (recv_panics_iff h.scb seg).0 e in absurd (ground (arith, w, live))
  admitted steer stream h tfrm seg n (ran (tcb, some x)) s sh live d f e = (
    record h { scb = tcb },
    some (if tcb.state is closed then net_closed else scb x),
    refl,
    nothing_new stream h (record h { scb = tcb }) seg n
        (some (if tcb.state is closed then net_closed else scb x)) refl
        (elim (recv_refused-Unmoved h.scb seg x (data_flags d (omega (arith, s.small))).1 e) [
          | inl u ↦ inr (InStep-subst (ap (λ v. v.nxt) u) refl refl s, ap (λ v. v.nxt) u)
          | inr c ↦ inl c
        ])
        s.nxt_in (λ c. absurd (ground arith)),
  )
  admitted steer stream h tfrm seg n (ran (tcb, none)) s sh live d f e =
      let i = recv-InOrder h.scb seg live e in
      let l = (data_flags d (omega (arith, s.small))).2 in
      let h1 : Handler P = record h { scb = tcb } in
      let pl = bytes stream seg.seq n in
      Ends-if stream h seg n (tcb.state is closed) _ _
        (λ y. (
          h1,
          some net_closed,
          refl,
          gone stream h h1 seg n (some net_closed) refl (closed_state tcb.state y)
              (λ c. absurd (ground arith)),
        ))
        (λ m.
          accepted_data steer stream h tfrm seg n pl tcb (ap (λ v. bytes stream v n) i.in_order) s
            sh d f (i.rcv_nxt ∙ ap (add h.scb.rcv.nxt) l))

  in_order :
      (steer : Policy P) (stream : Value → ℕ) (h : Handler P) (tfrm : Frame) (seg : Segment) (n : ℕ)
      → InStep stream h.scb.rcv.nxt h.buf_rx h.reasm
      → h.shutdown_rx ≡ false
      → is_transferring h.scb.state ≡ true
      → IsData seg n
      → Ends stream h seg n (recv_in_order steer h tfrm seg (bytes stream seg.seq n))
  unfolding recv_in_order
  in_order steer stream h tfrm seg n s sh live d =
      let pl = bytes stream seg.seq n in
      let len = length-bytes stream seg.seq n in
      Ends-if stream h seg n (not h.shutdown_rx && ltb (Ring.free h.buf_rx) (length pl)) _ _
        (λ y. refused_full stream h seg n s)
        (λ m.
          admitted steer stream h tfrm seg n (Recv.recv h.scb seg) s sh live d
            (ground (arith, sh, len)) refl)

  from_kept :
      (stream : Value → ℕ) (h h1 h' : Handler P) (seg : Segment) (n : ℕ) (err : Option Error)
      → contents h1.buf_rx ≡ contents h.buf_rx
      → h1.scb.rcv.nxt ≡ h.scb.rcv.nxt
      → Delivered stream h1 seg n h' err
      → Delivered stream h seg n h' err
  from_kept stream h h1 h' seg n err c e g = record {
    k = g.k;
    grown = g.grown ∙ ap₂ ◌++◌ c (ap (λ v. bytes stream v g.k) e);
    ending = elim g.ending [ inl z ↦ inl z | inr (s, z) ↦ inr (s, z ∙ ap (λ v. add v g.k) e) ];
    progress = λ o q. g.progress o (ap (λ v. seg.seq == v) e ∙ q);
  }

  -- A segment of data, without SYN, FIN or RST, of the peer's stream arrives at a connection in
  -- ESTABLISHED, FIN-WAIT-1, FIN-WAIT-2, CLOSING or CLOSE-WAIT whose read side is not shut down, and whose
  -- receive side is in step with the stream. Whether it is in order, ahead, old or out of the window,
  -- `Recv`, from the out-of-order segments on and with any policy, does not panic, and the
  -- readable bytes grow by `k` bytes of the stream from rcv.NXT on; unless the connection is then
  -- closed, rcv.NXT has advanced by `k` and the receive side is in step with the stream again. A segment
  -- at rcv.NXT that is taken without an error is among these bytes.
  pub recv_kept-Delivered :
      (steer : Policy P) (stream : Value → ℕ) (h : Handler P) (tfrm : Frame) (seg : Segment) (n : ℕ)
      → InStep stream h.scb.rcv.nxt h.buf_rx h.reasm
      → h.shutdown_rx ≡ false
      → is_transferring h.scb.state ≡ true
      → IsData seg n
      → (h' : Handler P) × (err : Option Error) × (recv_kept steer h tfrm seg
            (bytes stream seg.seq n)
          ≡ ran (h', err))
        × Delivered stream h seg n h' err
  unfolding recv_kept Ends
  recv_kept-Delivered steer stream h tfrm seg n s sh live d =
      let pl = bytes stream seg.seq n in
      let res = handle_out_of_order h seg pl in
      let k = handle_out_of_order-Kept stream h seg n d.seq_in s in
      let e = k.same_nxt in
      Ends-if stream h seg n (not (enabled h.reasm)) _ _
        (λ y. in_order steer stream h tfrm seg n s sh live d)
        (λ m.
          Ends-if stream h seg n res.1 _ _
            (λ y. (
              res.0,
              none,
              refl,
              nothing_new stream h res.0 seg n none k.same_contents
                  (inr (InStep-subst e refl refl k.in_step, e)) s.nxt_in
                  (λ _ q. absurd (ground (arith, k.ahead y, q))),
            ))
            (λ q.
              let out =
                in_order steer stream res.0 tfrm seg n (InStep-subst e refl refl k.in_step)
                  (k.same_shutdown ∙ sh) (ap is_transferring k.same_state ∙ live) d in
              let (h', err, r, g) = out in
              (h', err, r, from_kept stream h res.0 h' seg n err k.same_contents e g)))
