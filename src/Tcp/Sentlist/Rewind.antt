-- ===== src/Tcp/Sentlist/Rewind.antt =====
-- tcp/txqueue.go: the list is rewound to the packet that contains a sequence number.
use lneto.Base.{
  ℕ, ◌+◌, ◌-◌, ◌^◌, ◌≤◌, ◌<◌, ◌≡◌, refl, sym, ap, ◌∙◌, subst, inl, inr, true, false, ◌&&◌, some,
  List, [], ◌∷◌, arith, ltb, ◌==◌, Bool-cases, ==_iff, ltb→lt, IsU32,
}
use lneto.Tcp.Value.{Value, less_than, less_than_eq, add}
use lneto.Tcp.Sentlist.{
  Ringidx, end_seq, Sentlist, newest, slist_end_seq, packet_containing, truncate_packets,
  truncate_from,
}
use lneto.Tcp.Sentlist.Run.{IsRun, total, add_zero, past}
use lneto.Tcp.Sentlist.Acks.{newest_of_run}

-- The packet that contains the number `k` places after `u`, and the packets before it.
pub record Found (u : Value) (k : ℕ) (ps : List Ringidx) : Type 0 where
  pub pkt : Ringidx
  pub kept : List Ringidx
  pub contains : packet_containing ps (add u k) ≡ some pkt
  pub cut : truncate_packets ps pkt.seq ≡ some kept
  pub kept_run : IsRun u kept
  pub kept_le : total kept ≤ k
  pub stops_past : k < total kept + pkt.size
  pub pkt_seq : pkt.seq ≡ add u (total kept)

covers_iff :
    (u : Value) (p : Ringidx) (k : ℕ)
    → IsU32 u
    → p.seq ≡ u
    → p.size < 2 ^ 31
    → k < 2 ^ 31
    → (less_than_eq p.seq (add u k) && less_than (add u k) (end_seq p)) ≡ ltb k p.size
unfolding less_than_eq less_than end_seq add
covers_iff u p k h e q w = ground arith

packet_here :
    (p : Ringidx) (ps : List Ringidx) (v : Value)
    → (less_than_eq p.seq v && less_than v (end_seq p)) ≡ true
    → (packet_containing (p ∷ ps) v ≡ some p) × (truncate_packets (p ∷ ps) p.seq ≡ some [])
unfolding packet_containing truncate_packets
packet_here p ps v h = (rw h refl, rw ((==_iff p.seq p.seq).1 refl) refl)

packet_later :
    (p : Ringidx) (ps : List Ringidx) (v : Value)
    → (less_than_eq p.seq v && less_than v (end_seq p)) ≡ false
    → packet_containing (p ∷ ps) v ≡ packet_containing ps v
unfolding packet_containing
packet_later p ps v h = rw h refl

truncate_later :
    (p : Ringidx) (ps : List Ringidx) (v : Value) (kept : List Ringidx)
    → (p.seq == v) ≡ false
    → truncate_packets ps v ≡ some kept
    → truncate_packets (p ∷ ps) v ≡ some (p ∷ kept)
unfolding truncate_packets
truncate_later p ps v kept h e = rw (h, e) refl

moved_on : (u v : Value) (m : ℕ) → IsU32 u → v ≡ add u m → 0 < m → m < 2 ^ 32 → (u == v) ≡ false
unfolding add
moved_on u v m h e p q = ground arith

found :
    (u : Value) (k : ℕ) (ps : List Ringidx)
    → IsRun u ps
    → total ps < 2 ^ 31
    → k < total ps
    → Found u k ps
unfolding IsRun total
found u k [] r w h = absurd (omega arith)
found u k (p ∷ ps) (a, b, c, r) w h =
    let iff = covers_iff u p k a b (omega arith) (omega arith) in
    elim (Bool-cases (ltb k p.size)) [
      | inl y ↦
          let (e, f) = packet_here p ps (add u k) (iff ∙ y) in
          record {
            pkt = p;
            kept = [];
            contains = e;
            cut = f;
            kept_run = a;
            kept_le = omega arith;
            stops_past = omega (arith, ltb→lt k p.size y);
            pkt_seq = b ∙ sym (add_zero u a);
          }
      | inr n ↦
          let le : p.size ≤ k = ground arith in
          let f = found (add u p.size) (k - p.size) ps r (omega arith) (omega arith) in
          let m = p.size + total f.kept in
          let at : f.pkt.seq ≡ add u m =
            f.pkt_seq
            ∙ ap (add (add u p.size)) {x = total f.kept} {y = m - p.size} (omega arith)
            ∙ sym (past u p.size m (omega arith)) in
          let ne =
            ap (λ v. v == f.pkt.seq) b
            ∙ moved_on u f.pkt.seq m a at (omega arith) (omega (arith, f.kept_le)) in
          record {
            pkt = f.pkt;
            kept = p ∷ f.kept;
            contains =
                packet_later p ps (add u k) (iff ∙ n)
                ∙ ap (packet_containing ps) (past u p.size k le)
                ∙ f.contains;
            cut = truncate_later p ps f.pkt.seq f.kept ne f.cut;
            kept_run = (a, b, c, f.kept_run);
            kept_le = omega (arith, f.kept_le);
            stops_past = omega (arith, f.stops_past);
            pkt_seq = at;
          }
    ]

kept_end :
    (u : Value) (sl : Sentlist) (p : Ringidx) (ps : List Ringidx)
    → sl.pkts ≡ p ∷ ps
    → IsRun u (p ∷ ps)
    → slist_end_seq sl ≡ add u (total (p ∷ ps))
unfolding slist_end_seq IsRun total
kept_end u sl p ps e (a, b, c, r) =
    let (last, f, g) = newest_of_run u (p ∷ ps) (a, b, c, r) (omega arith) in
    rw (e, f, slist_end_seq) g

truncated :
    (u : Value) (sl : Sentlist) (v : Value) (kept : List Ringidx)
    → truncate_packets sl.pkts v ≡ some kept
    → IsRun u kept
    → v ≡ add u (total kept)
    → ((truncate_from sl v).pkts ≡ kept) × (slist_end_seq (truncate_from sl v) ≡ v)
unfolding truncate_from slist_end_seq newest
truncated u sl v [] e r h = rw (e, truncate_from) (refl, refl)
truncated u sl v (p ∷ ps) e r h =
    let same : (truncate_from sl v).pkts ≡ p ∷ ps = rw (e, truncate_from) refl in
    (same, kept_end u (truncate_from sl v) p ps same r ∙ sym h)

-- On packets that carry the fewer than 2 ^ 31 sequence numbers from `u` on without a gap,
-- `packetContaining` finds, for each number among them, the packet that carries it, and
-- `truncateFrom` of that packet's start keeps exactly packets that carry the numbers before that
-- start, without a gap; the sequence number after the last packet is then that start.
pub packet_containing-truncate_from :
    (u : Value) (sl : Sentlist) (k : ℕ)
    → IsRun u sl.pkts
    → total sl.pkts < 2 ^ 31
    → k < total sl.pkts
    → (pkt : Ringidx) × (j : ℕ) × (packet_containing sl.pkts (add u k) ≡ some pkt)
      × (pkt.seq ≡ add u j)
      × (j ≤ k)
      × (k < j + pkt.size)
      × IsRun u (truncate_from sl pkt.seq).pkts
      × (total (truncate_from sl pkt.seq).pkts ≡ j)
      × (slist_end_seq (truncate_from sl pkt.seq) ≡ pkt.seq)
packet_containing-truncate_from u sl k r w h =
    let f = found u k sl.pkts r w h in
    let (same, e) = truncated u sl f.pkt.seq f.kept f.cut f.kept_run f.pkt_seq in
    (
      f.pkt,
      total f.kept,
      f.contains,
      f.pkt_seq,
      f.kept_le,
      f.stops_past,
      subst (IsRun u) (sym same) f.kept_run,
      ap total same,
      e,
    )
