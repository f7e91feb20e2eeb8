-- ===== src/Tcp/RingTx/Rewind.antt =====
-- tcp/txqueue.go: RetransmitFrom to a packet that starts at index 0 of the buffer.
use lneto.Base.{
  ℕ, ◌+◌, ◌-◌, ◌≤◌, ◌<◌, ◌≡◌, refl, sym, ap, ◌∙◌, subst, ◌≢◌, false, none, some, List, ◌++◌,
  append_assoc, arith, ◌==◌, length, take, drop, length-append, take-append-drop, length-take,
  drop-append, ran,
}
use lneto.Tcp.Value.{Value}
use lneto.Internal.Ring.{Ring, buffered}
use lneto.Internal.Ring.Line.{IsValid, line, line_stop}
use lneto.Internal.Ring.Write.{write_ok, written, written-Appended}
use lneto.Tcp.Sentlist.{Ringidx, Sentlist, packet_containing, truncate_from}
use lneto.Tcp.RingTx.{
  RingTx, sent_ring, sent_and_unsent_buffer, buffered_sent, keep_written, rewind_to,
  retransmit_from,
}
use lneto.Tcp.RingTx.Regions.{unsent_of, Holds, total_size}
use lneto.Internal.Ring
use lneto.Tcp.RingTx

-- The transmit ring rewound to a packet at index 0.
abbrev rewound : RingTx → Ringidx → RingTx
rewound rtx pkt = record rtx { sentend = 0; unsentoff = 0; slist = truncate_from rtx.slist pkt.seq }

retransmit_from_zero :
    (rtx : RingTx) (seq : Value) (pkt : Ringidx)
    → packet_containing rtx.slist.pkts seq ≡ some pkt
    → pkt.off ≡ 0
    → rtx.sentoff ≢ 0
    → rtx.unsentend ≢ 0
    → retransmit_from rtx seq ≡ rewound rtx pkt
unfolding retransmit_from rewind_to
retransmit_from_zero rtx seq pkt e z s u =
    let w : (pkt.off == rtx.sentoff) ≡ false = ground arith in
    let v : (rtx.unsentend == 0) ≡ false = ground arith in
    rw (e, retransmit_from) (rw (w, z, v) refl)

-- The ring rewound holds what was sent from index 0 on and what was not sent, and the bytes sent
-- before index 0 are spare.
rewound_free :
    (rtx : RingTx) {sent unsent spare : List ℕ}
    → Holds rtx sent unsent spare
    → 0 < length sent
    → rtx.sentoff + length sent ≡ rtx.unsentoff + length rtx.rawbuf
    → rtx.sentoff ≢ 0
    → rtx.unsentend ≢ 0
    → Ring.free (record { buf = rtx.rawbuf; off = 0; stop = rtx.unsentend })
      ≡ length spare + (length rtx.rawbuf - rtx.sentoff)
unfolding Ring.free Ring.size
rewound_free rtx h m e z u =
    let t = total_size h in
    let l = (h.sent_at m).0 in
    let f = h.room in let v = h.valid.stop_in in let w = h.valid.off_in in ground arith

rewound_line :
    (rtx : RingTx)
    → rtx.unsentend ≢ 0
    → line (record { buf = rtx.rawbuf; off = 0; stop = rtx.unsentend }) ≡ line (unsent_of rtx)
rewound_line rtx u =
    line_stop (record { buf = rtx.rawbuf; off = 0; stop = rtx.unsentend }) u
    ∙ sym (line_stop (unsent_of rtx) u)

-- What is left of the sent bytes and the bytes not sent, once `k` bytes of the first count as spare.
cut_sent :
    (k : ℕ) (sent unsent spare : List ℕ)
    → k ≤ length sent
    → spare ++ (sent ++ unsent) ≡ (spare ++ take k sent) ++ (drop k sent ++ unsent)
cut_sent k sent unsent spare h =
    ap (λ s. spare ++ (s ++ unsent)) (sym (take-append-drop k sent))
    ∙ ap (λ s. spare ++ s) (append_assoc (take k sent) (drop k sent) unsent)
    ∙ sym (append_assoc spare (take k sent) (drop k sent ++ unsent))

-- A rewound ring `rtx'` on which the first `k` bytes sent count as spare, though their packets are
-- still in the list, and what a write of `b` then leaves.
pub record Overrun (rtx' : RingTx) (k : ℕ) (slist : Sentlist) (sent unsent spare b : List ℕ)
    : Type 0 where
  pub packets : rtx'.slist ≡ slist
  pub none_sent : buffered_sent rtx' ≡ 0
  pub more_free : RingTx.free rtx' ≡ length spare + k
  pub after : RingTx
  pub taken : RingTx.write rtx' b ≡ ran (after, length b, none)
  pub same_packets : after.slist ≡ slist
  pub overwritten :
      line (unsent_of after)
      ≡ drop (length b) (spare ++ take k sent) ++ ((drop k sent ++ unsent) ++ b)

drop_into : (n : ℕ) (a x : List ℕ) → n ≤ length a → drop n (a ++ x) ≡ drop n a ++ x
drop_into n a x h =
    drop-append n a x ∙ ap (λ k. drop n a ++ drop k x) {x = n - length a} {y = 0} (omega arith)

rewound_none_sent : (rtx : RingTx) (pkt : Ringidx) → buffered_sent (rewound rtx pkt) ≡ 0
unfolding buffered_sent sent_ring buffered Ring.free Ring.size
rewound_none_sent rtx pkt = ground arith

rewound_more_free :
    (rtx : RingTx) (pkt : Ringidx)
    → (rtx.unsentend == 0) ≡ false
    → RingTx.free (rewound rtx pkt)
      ≡ Ring.free (record { buf = rtx.rawbuf; off = 0; stop = rtx.unsentend })
unfolding RingTx.free sent_and_unsent_buffer
rewound_more_free rtx pkt u = rw (u) refl

rewound-write :
    (rtx : RingTx) (pkt : Ringidx) (b : List ℕ) (r' : Ring)
    → Ring.write (record { buf = rtx.rawbuf; off = 0; stop = rtx.unsentend }) b
      ≡ ran (r', length b, none)
    → RingTx.write (rewound rtx pkt) b
      ≡ ran (record (rewound rtx pkt) { rawbuf = r'.buf; unsentend = r'.stop }, length b, none)
unfolding RingTx.write keep_written
rewound-write rtx pkt b r' w = rw (w) refl

rewound-Overrun :
    (rtx : RingTx) (pkt : Ringidx) (b : List ℕ) {sent unsent spare : List ℕ}
    → Holds rtx sent unsent spare
    → 0 < length sent
    → rtx.sentoff + length sent ≡ rtx.unsentoff + length rtx.rawbuf
    → rtx.sentoff ≢ 0
    → rtx.unsentend ≢ 0
    → 0 < length b
    → length b ≤ length spare + (length rtx.rawbuf - rtx.sentoff)
    → Overrun
        (rewound rtx pkt)
        (length rtx.rawbuf - rtx.sentoff)
        (truncate_from rtx.slist pkt.seq)
        sent
        unsent
        spare
        b
rewound-Overrun rtx pkt b {sent} {unsent} {spare} h m e z u p q =
    let r : Ring = record { buf = rtx.rawbuf; off = 0; stop = rtx.unsentend } in
    let k = length rtx.rawbuf - rtx.sentoff in
    let v : IsValid r = record { off_in = omega arith; stop_in = h.valid.stop_in } in
    let f = rewound_free rtx h m e z u in
    let in_sent : k ≤ length sent = let o = h.valid.off_in in omega arith in
    let room : length b ≤ Ring.free r = omega (arith, f) in
    let a = written-Appended {r = r} b v p room in
    let cut = length-append spare (take k sent) in
    let head = length-take k sent in
    record {
      packets = refl;
      none_sent = rewound_none_sent rtx pkt;
      more_free = rewound_more_free rtx pkt (ground arith) ∙ f;
      after = record (rewound rtx pkt) {
        rawbuf = (written r b).buf;
        unsentend = (written r b).stop;
      };
      taken = rewound-write rtx pkt b (written r b) (write_ok {r = r} b v p room);
      same_packets = refl;
      overwritten =
          a.line_moved
          ∙ ap (λ l. drop (length b) l ++ b)
              (rewound_line rtx u ∙ h.layout ∙ cut_sent k sent unsent spare in_sent)
          ∙ ap (λ l. l ++ b)
              (drop_into (length b) (spare ++ take k sent) (drop k sent ++ unsent) (omega arith))
          ∙ append_assoc (drop (length b) (spare ++ take k sent)) (drop k sent ++ unsent) b;
    }

-- Bytes in flight run past the end of the buffer, not from index 0, with bytes not sent behind
-- them, and the packet that contains `seq` starts at index 0. Then `RetransmitFrom` leaves the
-- packets before that one in the list, but no sent bytes: `BufferedSent` is 0, and the bytes sent
-- before index 0, which are not acknowledged, are free. `Write` takes up to as many bytes as are
-- spare and these together, and the bytes beyond those that were spare go over the oldest bytes in
-- flight.
pub retransmit_from_wrapped :
    (rtx : RingTx) (seq : Value) (pkt : Ringidx) (b : List ℕ) {sent unsent spare : List ℕ}
    → Holds rtx sent unsent spare
    → packet_containing rtx.slist.pkts seq ≡ some pkt
    → pkt.off ≡ 0
    → 0 < length sent
    → rtx.sentoff + length sent ≡ rtx.unsentoff + length rtx.rawbuf
    → rtx.sentoff ≢ 0
    → rtx.unsentend ≢ 0
    → 0 < length b
    → length b ≤ length spare + (length rtx.rawbuf - rtx.sentoff)
    → Overrun
        (retransmit_from rtx seq)
        (length rtx.rawbuf - rtx.sentoff)
        (truncate_from rtx.slist pkt.seq)
        sent
        unsent
        spare
        b
retransmit_from_wrapped rtx seq pkt b {sent} {unsent} {spare} h c o m e z u p q =
    subst
      (λ rtx'.
        Overrun rtx' (length rtx.rawbuf - rtx.sentoff) (truncate_from rtx.slist pkt.seq) sent unsent
          spare b)
      (sym (retransmit_from_zero rtx seq pkt c o z u)) (rewound-Overrun rtx pkt b h m e z u p q)
