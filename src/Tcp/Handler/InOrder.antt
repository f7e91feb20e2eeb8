-- ===== src/Tcp/Handler/InOrder.antt =====
-- tcp/handler.go: the data of an accepted segment, and what was held behind it.
use lneto.Base.{
  ℕ, ◌/◌, ◌%◌, ◌^◌, ◌<◌, ◌≡◌, refl, sym, ap, ◌∙◌, inl, inr, true, false, not, ◌&&◌, ◌||◌, Option,
  none, some, List, [], ◌∷◌, arith, ltb, ◌==◌, Bool-cases, Option-cases, ==_iff, IsU32, length, ran,
  bit_and_one, bit_and_two, bit_and_four, bit_and_seven,
}
use lneto.Tcp.Value.{Value, Size, add, update_forward}
use lneto.Tcp.Segment.{
  State, Segment, flag_syn, flag_rst, flag_ack, flagctl, has_any, seg_len, ◌is◌, fin_wait1,
  fin_wait2,
}
use lneto.Tcp.Control.Incoming.{queue_ack}
use lneto.Internal.Ring.{Ring}
use lneto.Tcp.Reassembly.{Held, Reassembly, deliver, reassemble}
use lneto.Tcp.Reassembly.Stream.{add_zero}
use lneto.Tcp.RingTx.{recv_acked}
use lneto.Tcp.Frame.{Frame}
use lneto.Tcp.Handler.{Handler}
use lneto.Tcp.Handler.Policy.{Policy}
use lneto.Tcp.Handler.Receive.{deliver_reassembled, recv_end, recv_data}
use lneto.Tcp.Handler.Accept.{post_rx_call}
use lneto.Internal.Ring

-- A segment of data without SYN, FIN or RST.
pub record IsData (seg : Segment) (n : ℕ) : Type 0 where
  pub data_len : seg.datalen ≡ n
  pub some_data : 0 < n
  pub no_control : has_any seg.flags flagctl ≡ false
  pub seq_in : IsU32 seg.seq

pub data_flags :
    {seg : Segment} {n : ℕ}
    → IsData seg n
    → n < 2 ^ 32
    → (has_any seg.flags flag_syn ≡ false)
      × (has_any seg.flags flag_rst ≡ false)
      × (seg_len seg ≡ n)
unfolding has_any seg_len
data_flags {seg} {n} d h =
    let f = seg.flags in
    let z : f % 2 ^ 3 ≡ 0 = ground (arith, bit_and_seven f, d.no_control) in
    (
      ground (arith, bit_and_two f),
      ground (arith, bit_and_four f),
      omega (arith, bit_and_one (f / 2 ^ 0), bit_and_one (f / 2 ^ 1), d.data_len),
    )

held_none :
    (c : ℕ) (held : List Held) (rx : Ring) (v : Value)
    → length held ≡ 0
    → let r : Reassembly = record { held = held; capacity = c } in reassemble r rx v ≡ (r, rx, 0)
unfolding reassemble deliver
held_none c [] rx v h = refl
held_none c (s ∷ ss) rx v h = absurd (omega arith)

module _ {ℓ} {P : Type ℓ} where
  -- What `deliverReassembled` does with what `reassemble` returns.
  pub deliver_reassembled_lem :
      (h : Handler P) {r : Reassembly} {rx : Ring} {k : ℕ}
      → h.shutdown_rx ≡ false
      → IsU32 h.scb.rcv.nxt
      → reassemble h.reasm h.buf_rx h.scb.rcv.nxt ≡ (r, rx, k)
      → let d = deliver_reassembled h in
        (d.buf_rx ≡ rx) × (d.reasm ≡ r) × (d.scb.rcv.nxt ≡ add h.scb.rcv.nxt k)
  unfolding deliver_reassembled queue_ack update_forward add reassemble
  deliver_reassembled_lem h {r} {rx} {k} s u e =
      let z = add_zero h.scb.rcv.nxt u in
      let at_rx = ap (λ (x : Reassembly × Ring × Size). x.1) e in
      let at_r = ap (λ (x : Reassembly × Ring × Size). x.0) e in
      let at_k = ap (λ (x : Reassembly × Ring × Size). x.2) e in
      elim (Bool-cases (length h.reasm.held == 0)) [
        | inl y ↦
            let o =
              held_none h.reasm.capacity h.reasm.held h.buf_rx h.scb.rcv.nxt ((==_iff _ _).0 y) in
            let k0 : k ≡ 0 = sym at_k ∙ ap (λ (x : Reassembly × Ring × Size). x.2) o in
            rw (y, deliver_reassembled)
              (
                sym (ap (λ (x : Reassembly × Ring × Size). x.1) o) ∙ at_rx,
                sym (ap (λ (x : Reassembly × Ring × Size). x.0) o) ∙ at_r,
                sym z ∙ ap (add h.scb.rcv.nxt) (sym k0),
              )
        | inr n ↦ elim (Bool-cases (ltb 0 (reassemble h.reasm h.buf_rx h.scb.rcv.nxt).2)) [
          | inl y ↦ rw (n, s, y, deliver_reassembled) (at_rx, at_r, ap (add h.scb.rcv.nxt) at_k)
          | inr m ↦
              let k0 : k ≡ 0 = ground arith in
              rw (n, s, m, deliver_reassembled)
                (at_rx, at_r, sym z ∙ ap (add h.scb.rcv.nxt) (sym k0))
        ]
      ]

  -- The end of `Recv` leaves the receive side alone for a segment without SYN.
  pub recv_end_lem :
      (h : Handler P) (tfrm : Frame) (seg : Segment) (una : Value)
      → has_any seg.flags flag_syn ≡ false
      → (h' : Handler P) × (recv_end h tfrm seg una ≡ ran (h', none))
        × (h'.buf_rx ≡ h.buf_rx)
        × (h'.reasm ≡ h.reasm)
        × (h'.scb ≡ h.scb)
  unfolding recv_end
  recv_end_lem h tfrm seg una n =
      elim (Bool-cases (has_any seg.flags flag_ack && not (seg.ack == una))) [
        | inl y ↦ (
          record h { buf_tx = (recv_acked h.buf_tx seg.ack).0 },
          rw (y, n) refl,
          refl,
          refl,
          refl,
        )
        | inr m ↦ (h, rw (m, n) refl, refl, refl, refl)
      ]

  pub recv_data_lem :
      (h : Handler P) (tfrm : Frame) (seg : Segment) (pl : List ℕ) (una : Value) {rx : Ring} {n : ℕ}
      → h.shutdown_rx ≡ false
      → (seg.datalen == 0) ≡ false
      → Ring.write h.buf_rx pl ≡ ran (rx, n, none)
      → recv_data h tfrm seg pl una
        ≡ recv_end (deliver_reassembled (record h { buf_rx = rx })) tfrm seg una
  unfolding recv_data
  recv_data_lem h tfrm seg pl una s d w =
      let goes_on : (not (seg.datalen == 0)
            && h.shutdown_rx
            && (h.scb.state is fin_wait1 || h.scb.state is fin_wait2))
          ≡ false =
        ground arith in
      let writes : (not (seg.datalen == 0) && not h.shutdown_rx) ≡ true = ground arith in
      rw (goes_on, writes, w) refl

  pub post_rx_call_lem :
      (steer : Policy P) (h : Handler P) (s : State) (tfrm : Frame)
      → (q : Option P) × (post_rx_call steer h s tfrm ≡ record h { policy = q })
  unfolding post_rx_call
  post_rx_call_lem steer h s tfrm =
      let called : Option P → Handler P = λ q. elim q [
        | none ↦ h
        | some p ↦ record h { policy = some (Policy.post_rx steer p h s tfrm.buf) }
      ] in
      elim (Option-cases h.policy) [
        | inl n ↦ (none, ap called n ∙ ap (λ q. record h { policy = q }) n)
        | inr (p, e) ↦ (some (Policy.post_rx steer p h s tfrm.buf), ap called e)
      ]
