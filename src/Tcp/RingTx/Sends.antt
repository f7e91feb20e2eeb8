-- ===== src/Tcp/RingTx/Sends.antt =====
-- tcp/txqueue.go: MakePacket turns the first bytes not sent into bytes sent.
use lneto.Base.{
  ℕ, ◌+◌, ◌-◌, ◌^◌, ◌≤◌, ◌<◌, min, ◌≡◌, refl, sym, ap, ◌∙◌, subst, ◌≢◌, ◌⊎◌, inl, inr, true, false,
  none, some, List, [], ◌∷◌, ◌++◌, append_assoc, arith, ltb, ◌==◌, if◌then◌else◌, Bool-cases,
  ==_iff, length, take, drop, length-append, take-append-drop, length-take, take-take, take_all,
  ran,
}
use lneto.Tcp.Value.{Value}
use lneto.Internal.Ring.{Ring, emptied, is_empty, buffered}
use lneto.Internal.Ring.Line.{IsValid, line, line_stop, line_off, free_empty, length-contents}
use lneto.Internal.Ring.Discard.{Dropped, after_discard}
use lneto.Internal.Ring.Read.{after_read, read_ok, after_read-Dropped, end_met}
use lneto.Tcp.Sentlist.{Ringidx, newest, slist_free, add_end, add_packet, continues}
use lneto.Tcp.RingTx.{RingTx, keep_packet, send_unsent, is_sent_before, sent_end_seq, make_packet}
use lneto.Tcp.RingTx.Regions.{unsent_of, Reaches, Holds, contents_unsent, total_size}
use lneto.Internal.Ring
use lneto.Internal.Ring.Queue.{drop-min}
use lneto.Tcp.RingTx
use lneto.Tcp.Sentlist.Sends.{sent_packet, add_packet_ok}

-- The ring of the bytes not sent once `k` of them are.
next_unsent : Ring → ℕ → Ring
next_unsent r k =
    let r' = after_read r k in
    record {
      buf = r.buf;
      off = if r'.stop == 0 then add_end r.off k (length r.buf) else r'.off;
      stop = r'.stop;
    }

-- What reading `k` bytes does to the place of the bytes not sent.
record AdvancedTo (r : Ring) (k : ℕ) (r' : Ring) : Type 0 where
  valid : IsValid r'
  same_line : line r' ≡ line r
  more_free : Ring.free r' ≡ Ring.free r + k
  reaches :
      (at m : ℕ)
      → m + buffered r ≤ length r.buf
      → Reaches at m r.off (length r.buf)
      → Reaches at (m + k) r'.off (length r.buf)
  continued :
      (pkt : Ringidx)
      → pkt.stop ≡ add_end r.off k (length r.buf)
      → continues (some pkt) r'.off (length r.buf) ≡ true

abbrev Advanced : Ring → ℕ → Type 0
Advanced r k = AdvancedTo r k (next_unsent r k)

stop_pos : {r : Ring} → IsValid r → 0 < buffered r → r.stop ≢ 0
unfolding buffered Ring.free Ring.size
stop_pos {r} v h = ground arith

whole_stop :
    {r : Ring} (k : ℕ)
    → IsValid r
    → 0 < k
    → k ≡ buffered r
    → add_end r.off k (length r.buf) ≡ r.stop
unfolding add_end Ring.add_off Ring.size
whole_stop {r} k v p e = ground (arith, end_met k v p (omega arith))

next_whole :
    {r : Ring} (k : ℕ)
    → IsValid r
    → 0 < k
    → k ≡ buffered r
    → next_unsent r k ≡ record { buf = r.buf; off = r.stop; stop = 0 }
unfolding next_unsent after_read emptied
next_whole {r} k v p e = rw ((==_iff k (buffered r)).1 e, whole_stop k v p e) refl

end_reached :
    (at m off k len : ℕ)
    → m + k ≤ len
    → at ≤ len
    → (at + m ≡ off) ⊎ (at + m ≡ off + len)
    → (at + (m + k) ≡ add_end off k len) ⊎ (at + (m + k) ≡ add_end off k len + len)
unfolding add_end
end_reached at m off k len b l h = ground arith

whole-Advanced : {r : Ring} (k : ℕ) → IsValid r → 0 < k → k ≡ buffered r → Advanced r k
unfolding add_end Ring.size continues
whole-Advanced {r} k v p e =
    let n = next_whole k v p e in
    let s = stop_pos v (omega arith) in
    let w = whole_stop k v p e in
    let c = (length-contents v).1 in
    subst (λ x. AdvancedTo r k x) (sym n)
      (record {
        valid = record { off_in = v.stop_in; stop_in = omega arith };
        same_line =
            line_off (record { buf = r.buf; off = r.stop; stop = 0 }) refl ∙ sym (line_stop r s);
        more_free = free_empty (record { buf = r.buf; off = r.stop; stop = 0 }) refl ∙ omega arith;
        reaches = λ at m b (l, h). (
          l,
          subst (λ z. (at + (m + k) ≡ z) ⊎ (at + (m + k) ≡ z + length r.buf)) w
              (end_reached at m r.off k (length r.buf) (omega arith) l h),
        );
        continued = λ pkt q. ground arith;
      })

-- The index after `k` bytes, where more are left.
part_off : Ring → ℕ → ℕ
part_off r k =
    if k + r.off == length r.buf
    then 0
    else if ltb (length r.buf) (k + r.off)
    then k - (length r.buf - r.off)
    else r.off + k

after_part :
    (r : Ring) (k : ℕ)
    → k < buffered r
    → after_read r k ≡ record { buf = r.buf; off = part_off r k; stop = r.stop }
unfolding after_read after_discard part_off Ring.size
after_part r k e = let n : (k == buffered r) ≡ false = ground arith in rw n (ground arith)

next_part :
    {r : Ring} (k : ℕ)
    → IsValid r
    → k < buffered r
    → next_unsent r k ≡ record { buf = r.buf; off = part_off r k; stop = r.stop }
unfolding next_unsent
next_part {r} k v e =
    let n : (r.stop == 0) ≡ false = ground (arith, stop_pos v) in rw (after_part r k e, n) refl

part_reached :
    (r : Ring) (at m k : ℕ)
    → m + k < length r.buf
    → at ≤ length r.buf
    → r.off ≤ length r.buf
    → (at + m ≡ r.off) ⊎ (at + m ≡ r.off + length r.buf)
    → (at + (m + k) ≡ part_off r k) ⊎ (at + (m + k) ≡ part_off r k + length r.buf)
unfolding part_off
part_reached r at m k b l o h = ground arith

part-Advanced : {r : Ring} (k : ℕ) → IsValid r → 0 < k → k < buffered r → Advanced r k
unfolding continues part_off add_end
part-Advanced {r} k v p e =
    let d =
      subst (λ x. Ring.Discard.Dropped r k x) (after_part r k e)
        (after_read-Dropped k v p (omega arith)) in
    subst (λ x. AdvancedTo r k x) (sym (next_part k v e))
      (record {
        valid = d.valid;
        same_line = d.same_line;
        more_free = d.free_more;
        reaches = λ at m b (l, h). (l, part_reached r at m k (omega arith) l v.off_in h);
        continued = λ pkt q. ground arith;
      })

newest-append : (pkts : List Ringidx) (pkt : Ringidx) → newest (pkts ++ (pkt ∷ [])) ≡ some pkt
unfolding newest
newest-append [] pkt = refl
newest-append (p ∷ []) pkt = refl
newest-append (p ∷ q ∷ ps) pkt = newest-append (q ∷ ps) pkt

-- The transmit ring after a packet of `k` bytes.
abbrev packed : RingTx → ℕ → Value → RingTx
packed rtx k seq =
    let u = next_unsent (unsent_of rtx) k in
    record rtx {
      slist = record (rtx.slist) {
        pkts = rtx.slist.pkts ++ (sent_packet seq k rtx.unsentoff (length rtx.rawbuf) ∷ []);
      };
      sentoff = if rtx.sentend == 0 then rtx.unsentoff else rtx.sentoff;
      unsentoff = u.off;
      sentend = add_end rtx.unsentoff k (length rtx.rawbuf);
      unsentend = u.stop;
    }

end_pos : (off k len : ℕ) → 0 < k → (add_end off k len == 0) ≡ false
unfolding add_end
end_pos off k len p = ground arith

-- The oldest byte sent, once `k` more bytes are.
reached :
    (rtx : RingTx) (k : ℕ) {sent unsent spare : List ℕ}
    → Holds rtx sent unsent spare
    → Advanced (unsent_of rtx) k
    → Reaches
        (if rtx.sentend == 0 then rtx.unsentoff else rtx.sentoff)
        (length sent + k)
        (next_unsent (unsent_of rtx) k).off
        (length rtx.rawbuf)
reached rtx k {sent} {unsent} {spare} h a =
    let b : length unsent ≡ buffered (unsent_of rtx) =
      ap length (sym (contents_unsent h)) ∙ (length-contents h.valid).0 in
    let t = total_size h in
    elim (Bool-cases (rtx.sentend == 0)) [
      | inl e ↦
          let z : length sent ≡ 0 = ground (arith, h.sent_none) in
          rw e (
            a.reaches rtx.unsentoff (length sent) (omega arith) (h.valid.off_in, inl (omega arith)))
      | inr n ↦ rw n (
          a.reaches rtx.sentoff (length sent) (omega arith)
            (h.sent_at (ground (arith, h.sent_none))))
    ]

packed-Holds :
    (rtx : RingTx) (k : ℕ) (seq : Value) {sent unsent spare : List ℕ}
    → Holds rtx sent unsent spare
    → 0 < k
    → k ≤ length unsent
    → Advanced (unsent_of rtx) k
    → Holds (packed rtx k seq) (sent ++ take k unsent) (drop k unsent) spare
unfolding next_unsent add_end sent_packet
packed-Holds rtx k seq {sent} {unsent} {spare} h p q a =
    let len : length (sent ++ take k unsent) ≡ length sent + k =
      omega (arith, length-append sent (take k unsent), length-take k unsent) in
    let b : length unsent ≡ buffered (unsent_of rtx) =
      ap length (sym (contents_unsent h)) ∙ (length-contents h.valid).0 in
    let last = newest-append rtx.slist.pkts (sent_packet seq k rtx.unsentoff (length rtx.rawbuf)) in
    record {
      valid = a.valid;
      layout =
          a.same_line
          ∙ h.layout
          ∙ ap (λ l. spare ++ (sent ++ l)) (sym (take-append-drop k unsent))
          ∙ ap (λ l. spare ++ l) (sym (append_assoc sent (take k unsent) (drop k unsent)));
      room = omega (arith, a.more_free, h.room);
      sent_none = end_pos rtx.unsentoff k (length rtx.rawbuf) p ∙ ground arith;
      sent_at = λ m.
          subst
            (λ j.
              Reaches (if rtx.sentend == 0 then rtx.unsentoff else rtx.sentoff) j
                (next_unsent (unsent_of rtx) k).off (length rtx.rawbuf))
            (sym len) (reached rtx k h a);
      last_sent =
          ap (λ o. continues o (next_unsent (unsent_of rtx) k).off (length rtx.rawbuf)) last
          ∙ a.continued (sent_packet seq k rtx.unsentoff (length rtx.rawbuf)) (refl);
    }

Advanced_lem : {r : Ring} (k : ℕ) → IsValid r → 0 < k → k ≤ buffered r → Advanced r k
Advanced_lem {r} k v p e = elim (Bool-cases (k == buffered r)) [
  | inl y ↦ whole-Advanced k v p ((==_iff k (buffered r)).0 y)
  | inr n ↦ part-Advanced k v p (ground arith)
]

kept :
    (rtx : RingTx) (k : ℕ) (seq : Value) (bytes : List ℕ)
    → length bytes ≡ k
    → keep_packet rtx bytes (after_read (unsent_of rtx) k) (
        ran (
          record (rtx.slist) {
            pkts = rtx.slist.pkts ++ (sent_packet seq k rtx.unsentoff (length rtx.rawbuf) ∷ []);
          },
          sent_packet seq k rtx.unsentoff (length rtx.rawbuf),
        ))
      ≡ ran (bytes, none, packed rtx k seq)
unfolding keep_packet next_unsent sent_packet RingTx.size
kept rtx k seq bytes e =
    let f : (add_end rtx.unsentoff k (length rtx.rawbuf)
          == add_end rtx.unsentoff (length bytes) (length rtx.rawbuf))
        ≡ true =
      ap
        (λ j.
          add_end rtx.unsentoff k (length rtx.rawbuf)
          == add_end rtx.unsentoff j (length rtx.rawbuf))
        e
      ∙ (==_iff (add_end rtx.unsentoff k (length rtx.rawbuf))
            (add_end rtx.unsentoff k (length rtx.rawbuf))).1
          refl in
    let g : (rtx.unsentoff == rtx.unsentoff) ≡ true = (==_iff rtx.unsentoff rtx.unsentoff).1 refl in
    rw (f, g) refl

make_packet_reads :
    (rtx : RingTx) (n : ℕ) (seq : Value)
    → length rtx.slist.pkts < rtx.slist.capacity
    → is_sent_before seq (sent_end_seq rtx) ≡ false
    → (rtx.unsentend == 0) ≡ false
    → make_packet rtx n seq ≡ send_unsent rtx seq (Ring.read (unsent_of rtx) n)
unfolding make_packet is_empty slist_free
make_packet_reads rtx n seq room fresh e =
    let f : (rtx.slist.capacity - length rtx.slist.pkts == 0) ≡ false = ground arith in
    rw (f, fresh, e) refl

read_unsent :
    (rtx : RingTx) (n : ℕ) {sent unsent spare : List ℕ}
    → Holds rtx sent unsent spare
    → 0 < n
    → 0 < length unsent
    → Ring.read (unsent_of rtx) n
      ≡ ran (take n unsent, none, after_read (unsent_of rtx) (min n (length unsent)))
read_unsent rtx n {sent} {unsent} {spare} h p q =
    let c = contents_unsent h in
    let b : buffered (unsent_of rtx) ≡ length unsent =
      sym (length-contents h.valid).0 ∙ ap length c in
    read_ok n h.valid p (omega arith)
    ∙ ap (λ l. ran (take n l, none, after_read (unsent_of rtx) (min n (buffered (unsent_of rtx)))))
        c
    ∙ ap (λ j. ran (take n unsent, none, after_read (unsent_of rtx) (min n j))) b

sent_unsent :
    (rtx : RingTx) (k : ℕ) (seq : Value) (bytes : List ℕ)
    → length bytes ≡ k
    → k < 2 ^ 32
    → length rtx.slist.pkts < rtx.slist.capacity
    → continues (newest rtx.slist.pkts) rtx.unsentoff (length rtx.rawbuf) ≡ true
    → send_unsent rtx seq (ran (bytes, none, after_read (unsent_of rtx) k))
      ≡ ran (bytes, none, packed rtx k seq)
unfolding send_unsent RingTx.size
sent_unsent rtx k seq bytes e w room c =
    ap (keep_packet rtx bytes (after_read (unsent_of rtx) k)) (
      ap (λ j. add_packet rtx.slist j rtx.unsentoff (length rtx.rawbuf) seq) e
      ∙ add_packet_ok rtx.slist k rtx.unsentoff (length rtx.rawbuf) seq w room c)
    ∙ kept rtx k seq bytes e

take-min : (n : ℕ) (q : List ℕ) → take (min n (length q)) q ≡ take n q
take-min n q = sym (take-take n (length q) q) ∙ ap (take n) (take_all (length q) q (omega arith))

-- `MakePacket` for bytes that were not sent before, into a slice of `n` bytes, on a transmit ring
-- with `unsent` bytes and room in the list of sent packets: it never panics and gives the oldest
-- `n` unsent bytes, or all of them; exactly those move from the unsent bytes behind the bytes in
-- flight, as one packet more in the list, and no spare byte is touched.
pub make_packet-Holds :
    (rtx : RingTx) (n : ℕ) (seq : Value) {sent unsent spare : List ℕ}
    → Holds rtx sent unsent spare
    → 0 < n
    → 0 < length unsent
    → length unsent < 2 ^ 32
    → length rtx.slist.pkts < rtx.slist.capacity
    → is_sent_before seq (sent_end_seq rtx) ≡ false
    → (rtx' : RingTx) × (make_packet rtx n seq ≡ ran (take n unsent, none, rtx'))
      × Holds rtx' (sent ++ take n unsent) (drop n unsent) spare
      × (rtx'.slist.pkts
          ≡ rtx.slist.pkts
            ++ (sent_packet seq (min n (length unsent)) rtx.unsentoff (length rtx.rawbuf) ∷ []))
make_packet-Holds rtx n seq {sent} {unsent} {spare} h p q w room fresh =
    let k = min n (length unsent) in
    let b : buffered (unsent_of rtx) ≡ length unsent =
      sym (length-contents h.valid).0 ∙ ap length (contents_unsent h) in
    let a = Advanced_lem k h.valid (omega arith) (omega arith) in
    (
      packed rtx k seq,
      make_packet_reads rtx n seq room fresh (ground (arith, stop_pos h.valid))
          ∙ ap (send_unsent rtx seq) (read_unsent rtx n h p (omega arith))
          ∙ sent_unsent rtx k seq (take n unsent) (omega (arith, length-take n unsent))
              (omega arith) room h.last_sent,
      subst (λ l. Holds (packed rtx k seq) (sent ++ l) (drop n unsent) spare) (take-min n unsent)
          (subst (λ l. Holds (packed rtx k seq) (sent ++ take k unsent) l spare) (drop-min n unsent)
            (packed-Holds rtx k seq h (omega arith) (omega arith) a)),
      refl,
    )
