-- ===== src/Tcp/Sentlist/Acks.antt =====
-- tcp/txqueue.go: an acknowledgement cuts the front off the sent packets.
use lneto.Base.{
  ℕ, ◌+◌, ◌-◌, ◌^◌, ◌≤◌, ◌<◌, ◌≡◌, refl, sym, ap, ◌∙◌, ◌⊎◌, inl, inr, true, false, none, some, List,
  [], ◌∷◌, arith, Bool-cases,
}
use lneto.Tcp.Value.{Value, less_than, less_than_eq, add}
use lneto.Tcp.Sentlist.{
  Ringidx, packet_drop, end_seq, is_rcvd, mark_rcvd, Sentlist, newest, slist_end_seq, mark_acked,
  marked_ssn, keep_sent, remove_rcvd, recv_ack,
}
use lneto.Tcp.Sentlist.Run.{
  IsRun, total, keep_sent-IsRun, acked_iff, left, add_zero, past, left-IsRun,
}

remove_rcvd_whole :
    (u : Value) (p : Ringidx) (ps : List Ringidx) → IsRun u (p ∷ ps) → remove_rcvd (p ∷ ps) ≡ p ∷ ps
unfolding remove_rcvd is_rcvd IsRun
remove_rcvd_whole u p ps (a, b, c, r) = ground arith

remove_rcvd_lem :
    (u : Value) (ps : List Ringidx) (ack : Value)
    → IsRun u ps
    → remove_rcvd (mark_acked ps ack) ≡ keep_sent (mark_acked ps ack)
unfolding mark_acked remove_rcvd keep_sent is_rcvd mark_rcvd
remove_rcvd_lem u [] ack r = refl
remove_rcvd_lem u (p ∷ ps) ack r = elim (Bool-cases (less_than_eq (end_seq p) ack)) [
  | inl y ↦ rw y refl
  | inr n ↦ rw n (remove_rcvd_whole u p ps r ∙ sym (keep_sent-IsRun u (p ∷ ps) r))
]

newest-IsRun :
    (u : Value) (p : Ringidx) (ps : List Ringidx)
    → IsRun u (p ∷ ps)
    → (last : Ringidx) × (newest (p ∷ ps) ≡ some last) × (end_seq last ≡ add u (total (p ∷ ps)))
unfolding newest IsRun total end_seq
newest-IsRun u p [] (a, b, c, r) =
    (p, refl, ap (λ v. add v p.size) b ∙ ap (add u) {x = p.size} {y = p.size + 0} (omega arith))
newest-IsRun u p (q ∷ ps) (a, b, c, r) =
    let (last, e, f) = newest-IsRun (add u p.size) q ps r in
    (
      last,
      e,
      f
          ∙ sym (
              past u p.size (p.size + (q.size + total ps)) (omega arith)
              ∙ ap (add (add u p.size)) (omega arith)),
    )

-- The counter after all packets are acknowledged, where it starts at `u` or there is a packet.
marked_ssn_all :
    (u : Value) (ps : List Ringidx) (ssn : Value)
    → IsRun u ps
    → (ssn ≡ u) ⊎ (0 < total ps)
    → total ps < 2 ^ 31
    → marked_ssn ps ssn (add u (total ps)) ≡ add u (total ps)
unfolding marked_ssn IsRun total end_seq
marked_ssn_all u [] ssn r h w = elim h [
  | inl e ↦ e ∙ sym (add_zero u r)
  | inr z ↦ absurd (omega arith)
]
marked_ssn_all u (p ∷ ps) ssn (a, b, c, r) h w =
    let k = p.size + total ps in
    let y : less_than_eq (end_seq p) (add u k) ≡ true =
      acked_iff u p k a b (omega arith) (omega arith) ∙ ground arith in
    let v = past u p.size k (omega arith) in
    let e : k - p.size ≡ total ps = omega arith in
    rw y (
      ap (marked_ssn ps (end_seq p)) (v ∙ ap (add (add u p.size)) e)
      ∙ marked_ssn_all (add u p.size) ps (end_seq p) r (inl (ap (λ z. add z p.size) b))
          (omega arith)
      ∙ sym (v ∙ ap (add (add u p.size)) e))

-- The list after an acknowledgement of `k` of its sequence numbers.
pub record Acked (u : Value) (k : ℕ) (sl sl' : Sentlist) : Type 0 where
  pub run : IsRun (add u k) sl'.pkts
  pub total_left : total sl'.pkts + k ≡ total sl.pkts
  pub same_end : slist_end_seq sl' ≡ add u (total sl.pkts)
  pub same_capacity : sl'.capacity ≡ sl.capacity

acked_end :
    (u : Value) (k : ℕ) (ssn capacity t : ℕ) (ps : List Ringidx)
    → IsRun (add u k) ps
    → total ps + k ≡ t
    → (k ≡ t → ssn ≡ add u t)
    → slist_end_seq (record { ssn = ssn; pkts = ps; capacity = capacity }) ≡ add u t
unfolding slist_end_seq total IsRun
acked_end u k ssn capacity t [] r e h = h (omega arith)
acked_end u k ssn capacity t (p ∷ ps) r e h =
    let (last, f, g) = newest-IsRun (add u k) p ps r in
    rw (f, slist_end_seq)
      (g
        ∙ ap (add (add u k)) {x = p.size + total ps} {y = t - k} (omega arith)
        ∙ sym (past u k t (omega arith)))

recv_ack_in :
    (u : Value) (sl : Sentlist) (last : Ringidx) (ack : Value) (bufsize : ℕ)
    → IsRun u sl.pkts
    → newest sl.pkts ≡ some last
    → less_than (end_seq last) ack ≡ false
    → recv_ack sl ack bufsize
      ≡ (record sl { ssn = marked_ssn sl.pkts sl.ssn ack; pkts = left sl.pkts ack bufsize }, none)
unfolding recv_ack
recv_ack_in u sl last ack bufsize r e h = rw (e, h, recv_ack, remove_rcvd_lem u sl.pkts ack r) refl

recv_ack_beyond :
    (sl : Sentlist) (last : Ringidx) (ack : Value) (bufsize : ℕ)
    → newest sl.pkts ≡ some last
    → less_than (end_seq last) ack ≡ true
    → recv_ack sl ack bufsize ≡ (sl, some packet_drop)
unfolding recv_ack
recv_ack_beyond sl last ack bufsize e h = rw (e, h, recv_ack) refl

pub newest_of_run :
    (u : Value) (ps : List Ringidx)
    → IsRun u ps
    → 0 < total ps
    → (last : Ringidx) × (newest ps ≡ some last) × (end_seq last ≡ add u (total ps))
unfolding total
newest_of_run u [] r h = absurd (omega arith)
newest_of_run u (p ∷ ps) r h = newest-IsRun u p ps r

within : (u : Value) (t k : ℕ) → t < 2 ^ 31 → k ≤ t → less_than (add u t) (add u k) ≡ false
unfolding less_than add
within u t k h l = ground arith

beyond : (u : Value) (t k : ℕ) → t < k → k ≤ 2 ^ 31 → less_than (add u t) (add u k) ≡ true
unfolding less_than add
beyond u t k h l = ground arith

-- On packets that carry the fewer than 2 ^ 31 sequence numbers from `u` on without a gap, an
-- acknowledgement of the first `k` of them leaves packets that carry the rest, from `u + k` on
-- without a gap, the one that it ends in cut short; the sequence number after the last packet
-- stays, also where no packet is left. An acknowledgement of numbers after the last packet, up to 2
-- ^ 31 after `u`, is dropped and changes nothing.
pub recv_ack-Acked :
    (u : Value) (sl : Sentlist) (k bufsize : ℕ)
    → IsRun u sl.pkts
    → 0 < total sl.pkts
    → total sl.pkts < 2 ^ 31
    → (k ≤ total sl.pkts
        → (sl' : Sentlist) × (recv_ack sl (add u k) bufsize ≡ (sl', none)) × Acked u k sl sl')
      × (total sl.pkts < k → k ≤ 2 ^ 31 → recv_ack sl (add u k) bufsize ≡ (sl, some packet_drop))
recv_ack-Acked u sl k bufsize r p w =
    let (last, e, f) = newest_of_run u sl.pkts r p in
    let t = total sl.pkts in
    (
      (λ h.
          let ps = left sl.pkts (add u k) bufsize in
          let (a, c) = left-IsRun u sl.pkts k bufsize r w h in
          let ssn' = marked_ssn sl.pkts sl.ssn (add u k) in
          (
            record { ssn = ssn'; pkts = ps; capacity = sl.capacity },
            recv_ack_in u sl last (add u k) bufsize r e
                (ap (λ v. less_than v (add u k)) f ∙ within u t k w h),
            record {
              run = a;
              total_left = c;
              same_end = acked_end u k ssn' sl.capacity t ps a c (λ q.
                  ap (λ j. marked_ssn sl.pkts sl.ssn (add u j)) q
                  ∙ marked_ssn_all u sl.pkts sl.ssn r (inr p) w);
              same_capacity = refl;
            },
          )),
      λ h q.
          recv_ack_beyond sl last (add u k) bufsize e
            (ap (λ v. less_than v (add u k)) f ∙ beyond u t k h q),
    )
