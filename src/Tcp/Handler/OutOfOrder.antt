-- ===== src/Tcp/Handler/OutOfOrder.antt =====
-- tcp/handler.go: what is held out of order, against the peer's stream.
use lneto.Base.{
  ℕ, ◌^◌, ◌≤◌, ◌≡◌, refl, sym, subst, inl, inr, Bool, true, false, not, ◌||◌, arith, ◌==◌,
  Bool-cases, IsU32,
}
use lneto.Tcp.Value.{Value, in_window}
use lneto.Tcp.Segment.{Segment, flagctl, has_any, seg_last}
use lneto.Tcp.Control.Incoming.{queue_ack}
use lneto.Internal.Ring.{Ring}
use lneto.Internal.Ring.Line.{IsValid, contents}
use lneto.Tcp.Reassembly.{Reassembly, store}
use lneto.Tcp.Reassembly.Stream.{bytes, Holds}
use lneto.Tcp.Reassembly.Store.{store-Stored}
use lneto.Tcp.Handler.{Handler}
use lneto.Tcp.Handler.Receive.{handle_out_of_order}
use lneto.Internal.Ring

-- The receive side is in step with the peer's stream: what is held are bytes of the stream ahead of
-- the next sequence number.
pub record InStep (stream : Value → ℕ) (nxt : Value) (rx : Ring) (r : Reassembly) : Type 0 where
  pub nxt_in : IsU32 nxt
  pub valid : IsValid rx
  pub small : Ring.free rx ≤ 2 ^ 31
  pub holds : Holds stream nxt rx r

pub InStep-subst :
    {stream : Value → ℕ} {nxt nxt' : Value} {rx rx' : Ring} {r r' : Reassembly}
    → nxt' ≡ nxt
    → rx' ≡ rx
    → r' ≡ r
    → InStep stream nxt rx r
    → InStep stream nxt' rx' r'
InStep-subst {stream} {nxt} {nxt'} {rx} {rx'} {r} {r'} a b c s =
    subst (λ v. InStep stream v rx' r') (sym a)
      (subst (λ x. InStep stream nxt x r') (sym b) (subst (λ y. InStep stream nxt rx y) (sym c) s))

module _ {ℓ} {P : Type ℓ} where
  -- What `handleOutOfOrder` leaves as it was.
  pub record Kept (stream : Value → ℕ) (h : Handler P) (seg : Segment) (res : Handler P × Bool)
      : Type 0 where
    pub in_step : InStep stream h.scb.rcv.nxt res.0.buf_rx res.0.reasm
    pub same_contents : contents res.0.buf_rx ≡ contents h.buf_rx
    pub same_nxt : res.0.scb.rcv.nxt ≡ h.scb.rcv.nxt
    pub same_shutdown : res.0.shutdown_rx ≡ h.shutdown_rx
    pub same_state : res.0.scb.state ≡ h.scb.state
    pub ahead : res.1 ≡ true → (seg.seq == h.scb.rcv.nxt) ≡ false

  unmoved :
      (stream : Value → ℕ) (h : Handler P) (seg : Segment)
      → InStep stream h.scb.rcv.nxt h.buf_rx h.reasm
      → Kept stream h seg (h, false)
  unmoved stream h seg s = record {
    in_step = s;
    same_contents = refl;
    same_nxt = refl;
    same_shutdown = refl;
    same_state = refl;
    ahead = λ e. absurd (ground arith);
  }

  pub handle_out_of_order-Kept :
      (stream : Value → ℕ) (h : Handler P) (seg : Segment) (n : ℕ)
      → IsU32 seg.seq
      → InStep stream h.scb.rcv.nxt h.buf_rx h.reasm
      → Kept stream h seg (handle_out_of_order h seg (bytes stream seg.seq n))
  unfolding handle_out_of_order queue_ack
  handle_out_of_order-Kept stream h seg n q s =
      let pl = bytes stream seg.seq n in
      let res = store h.reasm h.buf_rx h.scb.rcv.nxt seg.seq pl in
      let st =
        store-Stored stream h.scb.rcv.nxt seg.seq n h.reasm h.buf_rx s.nxt_in q s.valid s.small
          s.holds in
      let step : InStep stream h.scb.rcv.nxt res.1 res.0 = record {
        nxt_in = s.nxt_in;
        valid = st.valid;
        small = omega (arith, st.same_free, s.small);
        holds = st.holds;
      } in
      elim (Bool-cases (
        h.shutdown_rx
        || seg.datalen == 0
        || has_any seg.flags flagctl
        || seg.seq == h.scb.rcv.nxt)) [
          | inl y ↦ rw y (unmoved stream h seg s)
          | inr a ↦
              rw a
                (elim (Bool-cases (
                  not (in_window seg.seq h.scb.rcv.nxt h.scb.rcv.wnd)
                  || not (in_window (seg_last seg) h.scb.rcv.nxt h.scb.rcv.wnd))) [
                    | inl y ↦ rw y (unmoved stream h seg s)
                    | inr b ↦ rw b (elim (Bool-cases (not res.2)) [
                      | inl y ↦ rw y (record {
                        in_step = step;
                        same_contents = st.same_contents;
                        same_nxt = refl;
                        same_shutdown = refl;
                        same_state = refl;
                        ahead = λ e. absurd (ground arith);
                      })
                      | inr c ↦ rw c (record {
                        in_step = step;
                        same_contents = st.same_contents;
                        same_nxt = refl;
                        same_shutdown = refl;
                        same_state = refl;
                        ahead = λ e. ground arith;
                      })
                    ])
                  ])
        ]
