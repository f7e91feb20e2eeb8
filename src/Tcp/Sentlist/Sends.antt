-- ===== src/Tcp/Sentlist/Sends.antt =====
-- tcp/txqueue.go: a packet sent is added at the end.
use lneto.Base.{
  ℕ, ◌+◌, ◌-◌, ◌%◌, ◌^◌, ◌≤◌, ◌<◌, ◌≡◌, refl, ap, ◌∙◌, true, false, List, [], ◌∷◌, ◌++◌, arith,
  ◌==◌, length, length-append, ran,
}
use lneto.Tcp.Value.{Value, add}
use lneto.Tcp.Sentlist.{
  Ringidx, Sentlist, newest, slist_end_seq, slist_free, add_end, continues, add_packet,
}
use lneto.Tcp.Sentlist.Run.{IsRun, total, add-IsU32, add_zero, past}
use lneto.Tcp.Sentlist.Acks.{newest_of_run}

append-IsRun :
    (u : Value) (ps : List Ringidx) (pkt : Ringidx)
    → IsRun u ps
    → pkt.seq ≡ add u (total ps)
    → 0 < pkt.size
    → IsRun u (ps ++ (pkt ∷ [])) × (total (ps ++ (pkt ∷ [])) ≡ total ps + pkt.size)
unfolding IsRun total
append-IsRun u [] pkt r e h = ((r, e ∙ add_zero u r, h, add-IsU32 u pkt.size), omega arith)
append-IsRun u (p ∷ ps) pkt (a, b, c, r) e h =
    let k = p.size + total ps in
    let e' =
      e
      ∙ past u p.size k (omega arith)
      ∙ ap (add (add u p.size)) {x = k - p.size} {y = total ps} (omega arith) in
    let (x, t) = append-IsRun (add u p.size) ps pkt r e' h in ((a, b, c, x), omega (arith, t))

unfoldable pub sent_packet : Value → ℕ → ℕ → ℕ → Ringidx
sent_packet seq datalen off bufsize = record {
  off = off;
  stop = add_end off datalen bufsize;
  seq = seq;
  size = datalen;
}

pub add_packet_ok :
    (sl : Sentlist) (datalen off bufsize : ℕ) (seq : Value)
    → datalen < 2 ^ 32
    → length sl.pkts < sl.capacity
    → continues (newest sl.pkts) off bufsize ≡ true
    → add_packet sl datalen off bufsize seq
      ≡ ran (
        record sl { pkts = sl.pkts ++ (sent_packet seq datalen off bufsize ∷ []) },
        sent_packet seq datalen off bufsize,
      )
unfolding add_packet slist_free sent_packet
add_packet_ok sl datalen off bufsize seq w h c =
    let e : datalen % 2 ^ 32 ≡ datalen = omega arith in
    let f : (sl.capacity - length sl.pkts == 0) ≡ false = ground arith in
    rw (e, f, c, add_packet) refl

-- On packets that carry the sequence numbers from `u` on without a gap, `AddPacket` of the data that
-- follows them does not panic as long as the list is not full and the data's offset in the buffer is
-- where the last packet ends: the list then carries the new data's numbers too, still without a
-- gap, in its capacity, and the sequence number after the last packet moves by the data's length.
pub add_packet-IsRun :
    (u : Value) (sl : Sentlist) (datalen off bufsize : ℕ)
    → IsRun u sl.pkts
    → 0 < datalen
    → total sl.pkts + datalen < 2 ^ 32
    → length sl.pkts < sl.capacity
    → continues (newest sl.pkts) off bufsize ≡ true
    → (sl' : Sentlist) × (pkt : Ringidx) × (add_packet sl datalen off bufsize
          (add u (total sl.pkts))
        ≡ ran (sl', pkt))
      × IsRun u sl'.pkts
      × (total sl'.pkts ≡ total sl.pkts + datalen)
      × (slist_end_seq sl' ≡ add u (total sl.pkts + datalen))
      × (length sl'.pkts ≤ sl'.capacity)
unfolding sent_packet slist_end_seq
add_packet-IsRun u sl datalen off bufsize r p w h c =
    let seq = add u (total sl.pkts) in
    let pkt = sent_packet seq datalen off bufsize in
    let (x, t) = append-IsRun u sl.pkts pkt r refl p in
    let (last, e, f) = newest_of_run u (sl.pkts ++ (pkt ∷ [])) x (omega (arith, t)) in
    (
      record sl { pkts = sl.pkts ++ (pkt ∷ []) },
      pkt,
      add_packet_ok sl datalen off bufsize seq (omega arith) h c,
      x,
      t,
      rw (e, slist_end_seq) (f ∙ ap (add u) t),
      omega (arith, length-append sl.pkts (pkt ∷ [])),
    )
