-- ===== src/Tcp/Handler/Outcome.antt =====
-- tcp/handler.go: what an arriving data segment comes to, and an accepted one.
use lneto.Base.{
  ℕ, ◌+◌, ◌≤◌, ◌≡◌, refl, sym, ap, ◌∙◌, subst, ◌⊎◌, inl, inr, Bool, true, false, Option, none, List,
  ◌++◌, append-nil, arith, ◌==◌, if◌then◌else◌, IsU32, Ran, ran,
}
use lneto.Tcp.Value.{Value, add}
use lneto.Tcp.Segment.{State, closed, ◌is◌, Segment}
use lneto.Tcp.Control.Block.{ControlBlock}
use lneto.Internal.Ring.{Ring}
use lneto.Internal.Ring.Line.{contents}
use lneto.Tcp.Reassembly.{reassemble}
use lneto.Tcp.Reassembly.Stream.{bytes, add_zero, add-add, add-IsU32}
use lneto.Tcp.Reassembly.Receive.{write-reassemble}
use lneto.Tcp.Frame.{Frame}
use lneto.Tcp.Handler.{Error, Handler}
use lneto.Tcp.Handler.Policy.{Policy}
use lneto.Tcp.Handler.Receive.{recv_data, deliver_reassembled}
use lneto.Tcp.Handler.Accept.{post_rx_call}
use lneto.Tcp.Handler.OutOfOrder.{InStep, InStep-subst}
use lneto.Tcp.Handler.InOrder.{
  IsData, data_flags, deliver_reassembled_lem, recv_end_lem, recv_data_lem, post_rx_call_lem,
}
use lneto.Internal.Ring

pub closed_state : (s : State) → (s is closed) ≡ true → s ≡ closed
closed_state s e = ground arith

module _ {ℓ} {P : Type ℓ} where
  -- The readable bytes grew by the `k` bytes of the stream from rcv.NXT on, and the receive side is in
  -- step with the stream from there, if the connection is not closed; an accepted segment at
  -- rcv.NXT is among these bytes.
  pub record Delivered (stream : Value → ℕ) (h : Handler P) (seg : Segment) (n : ℕ) (h' : Handler P)
      (err : Option Error) : Type 0 where
    pub k : ℕ
    pub grown : contents h'.buf_rx ≡ contents h.buf_rx ++ bytes stream h.scb.rcv.nxt k
    pub ending :
        (h'.scb.state ≡ closed)
        ⊎ (InStep stream h'.scb.rcv.nxt h'.buf_rx h'.reasm × (h'.scb.rcv.nxt ≡ add h.scb.rcv.nxt k))
    pub progress : err ≡ none → (seg.seq == h.scb.rcv.nxt) ≡ true → n ≤ k

  pub nothing_new :
      (stream : Value → ℕ) (h h' : Handler P) (seg : Segment) (n : ℕ) (err : Option Error)
      → contents h'.buf_rx ≡ contents h.buf_rx
      → (h'.scb.state ≡ closed)
        ⊎ (InStep stream h'.scb.rcv.nxt h'.buf_rx h'.reasm × (h'.scb.rcv.nxt ≡ h.scb.rcv.nxt))
      → IsU32 h.scb.rcv.nxt
      → (err ≡ none → (seg.seq == h.scb.rcv.nxt) ≡ true → n ≤ 0)
      → Delivered stream h seg n h' err
  unfolding bytes
  nothing_new stream h h' seg n err c e u p = record {
    k = 0;
    grown = c ∙ sym (append-nil (contents h.buf_rx));
    ending = elim e [ inl z ↦ inl z | inr (s, z) ↦ inr (s, z ∙ sym (add_zero h.scb.rcv.nxt u)) ];
    progress = p;
  }

  pub gone :
      (stream : Value → ℕ) (h h' : Handler P) (seg : Segment) (n : ℕ) (err : Option Error)
      → contents h'.buf_rx ≡ contents h.buf_rx
      → h'.scb.state ≡ closed
      → (err ≡ none → (seg.seq == h.scb.rcv.nxt) ≡ true → n ≤ 0)
      → Delivered stream h seg n h' err
  unfolding bytes
  gone stream h h' seg n err c e p = record {
    k = 0;
    grown = c ∙ sym (append-nil (contents h.buf_rx));
    ending = inl e;
    progress = p;
  }

  -- What a call of the receive path comes to.
  unfoldable pub Ends :
      (Value → ℕ) → Handler P → Segment → ℕ → Ran (Handler P × Option Error) → Type ℓ
  Ends stream h seg n r =
      (h' : Handler P) × (err : Option Error) × (r ≡ ran (h', err))
      × Delivered stream h seg n h' err

  pub Ends-if :
      (stream : Value → ℕ) (h : Handler P) (seg : Segment) (n : ℕ) (b : Bool)
      (x y : Ran (Handler P × Option Error))
      → (b ≡ true → Ends stream h seg n x)
      → (b ≡ false → Ends stream h seg n y)
      → Ends stream h seg n (if b then x else y)
  Ends-if stream h seg n true x y p q = p refl
  Ends-if stream h seg n false x y p q = q refl

  -- An accepted segment.
  pub accepted_data :
      (steer : Policy P) (stream : Value → ℕ) (h : Handler P) (tfrm : Frame) (seg : Segment) (n : ℕ)
      (pl : List ℕ) (tcb : ControlBlock)
      → pl ≡ bytes stream h.scb.rcv.nxt n
      → InStep stream h.scb.rcv.nxt h.buf_rx h.reasm
      → h.shutdown_rx ≡ false
      → IsData seg n
      → n ≤ Ring.free h.buf_rx
      → tcb.rcv.nxt ≡ add h.scb.rcv.nxt n
      → Ends stream h seg n (
          recv_data
            (post_rx_call steer (record h { scb = tcb }) h.scb.state tfrm)
            tfrm
            seg
            pl
            h.scb.snd.una)
  unfolding Ends
  accepted_data steer stream h tfrm seg n pl tcb b s sh d f e =
      let nxt = h.scb.rcv.nxt in
      let h1 : Handler P = record h { scb = tcb } in
      let (p, pe) = post_rx_call_lem steer h1 h.scb.state tfrm in
      let h2 : Handler P = record h1 { policy = p } in
      let (rx1, r', rx', k, w, re, rec) =
        write-reassemble stream nxt h.reasm h.buf_rx n s.nxt_in s.valid s.small s.holds d.some_data
          f in
      let h3 : Handler P = record h2 { buf_rx = rx1 } in
      let z : (seg.datalen == 0) ≡ false = ground (arith, d.data_len, d.some_data) in
      let (g1, g2, g3) =
        deliver_reassembled_lem h3 sh (subst IsU32 (sym e) (add-IsU32 nxt n))
          (ap (reassemble h.reasm rx1) e ∙ re) in
      let (h', he, k1, k2, k3) =
        recv_end_lem (deliver_reassembled h3) tfrm seg h.scb.snd.una
          (data_flags d (omega (arith, s.small))).0 in
      let at : h'.scb.rcv.nxt ≡ add nxt (n + k) =
        ap (λ (t : ControlBlock). t.rcv.nxt) k3 ∙ g3 ∙ ap (λ v. add v k) e ∙ add-add nxt n k in
      (
        h',
        none,
        ap (λ x. recv_data x tfrm seg pl h.scb.snd.una) pe
            ∙ recv_data_lem h2 tfrm seg pl h.scb.snd.una sh z (ap (Ring.write h.buf_rx) b ∙ w)
            ∙ he,
        record {
          k = n + k;
          grown = ap contents (k1 ∙ g1) ∙ rec.grown;
          ending = inr (
            InStep-subst at (k1 ∙ g1) (k2 ∙ g2) (record {
              nxt_in = add-IsU32 nxt (n + k);
              valid = rec.valid;
              small = omega (arith, rec.room, s.small);
              holds = rec.holds;
            }),
            at,
          );
          progress = λ _ _. omega arith;
        },
      )
