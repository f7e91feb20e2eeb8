-- ===== src/Tcp/RingTx.antt =====
-- tcp/txqueue.go: the transmit ring, `ringTx`. A local ring that a method makes over the buffer is a
-- value of its own; where the source copies its fields back, the model does.
pub mod Regions
pub mod Writes
pub mod Sends
pub mod Rewind
mod Tests
use lneto.Base.{
  ℕ, Bool, false, not, ◌&&◌, ◌||◌, Option, none, some, List, [], ◌∷◌, ltb, ◌==◌, if◌then◌else◌,
  length, Ran, ran, panicked,
}
use lneto.Tcp.Value.{Value, less_than}
use lneto.Internal.Ring.{Ring, Written, Taken}
use lneto.Tcp.Sentlist.{
  Ringidx, Sentlist, newest, oldest, end_seq, slist_free, packet_containing, truncate_from, add_end,
  add_packet, recv_ack,
}
use lneto.Internal.Ring
use lneto.Tcp.Sentlist

-- The errors, with those that the ring and the list of packets return.
pub data Error : Type 0 where
  invalid_config short_buffer buffer_full bug : Error
  ring : Ring.Error → Error
  sent : Sentlist.Error → Error

-- `emptyRing` is never used.
pub record RingTx : Type 0 where
  pub rawbuf : List ℕ
  pub unsentoff : ℕ
  pub unsentend : ℕ
  pub sentoff : ℕ
  pub sentend : ℕ
  pub slist : Sentlist
  pub iss : Value

unfoldable pub size : RingTx → ℕ
size rtx = length rtx.rawbuf

unfoldable pub reset : RingTx → List ℕ → ℕ → Value → RingTx × Option Error
reset rtx buf maxqueued_packets iss =
    let slist' = Sentlist.reset rtx.slist maxqueued_packets iss in
    if maxqueued_packets == 0
    then (rtx, some invalid_config)
    else if ltb (length buf) 2 || ltb (length buf) maxqueued_packets
    then (rtx, some short_buffer)
    else (
      record {
        rawbuf = buf;
        unsentoff = 0;
        unsentend = 0;
        sentoff = 0;
        sentend = 0;
        slist = slist';
        iss = iss;
      },
      none,
    )

-- `none` stands for a nil buffer.
unfoldable pub reset_or_reuse : RingTx → Option (List ℕ) → ℕ → Value → RingTx × Option Error
unfolding reset
reset_or_reuse rtx buf max_queued_packets ack =
    reset rtx (elim buf [ none ↦ rtx.rawbuf | some b ↦ b ])
      (if max_queued_packets == 0 then rtx.slist.capacity else max_queued_packets) ack

unfoldable pub ring_over : RingTx → ℕ → ℕ → Ring
ring_over rtx off stop = record { buf = rtx.rawbuf; off = off; stop = stop }

unfoldable pub sent_and_unsent_buffer : RingTx → Ring
unfolding ring_over
sent_and_unsent_buffer rtx =
    if rtx.unsentend == 0
    then ring_over rtx rtx.sentoff rtx.sentend
    else if rtx.sentend == 0
    then ring_over rtx rtx.unsentoff rtx.unsentend
    else ring_over rtx rtx.sentoff rtx.unsentend

-- The ring and the limit of writes to it.
unfoldable pub unsent_ring : RingTx → Ring × ℕ
unfolding ring_over
unsent_ring rtx = (ring_over rtx rtx.unsentoff rtx.unsentend, rtx.sentoff)

unfoldable pub sent_ring : RingTx → Ring × ℕ
unfolding ring_over
sent_ring rtx = (ring_over rtx rtx.sentoff rtx.sentend, rtx.unsentoff)

unfoldable pub free : RingTx → ℕ
unfolding sent_and_unsent_buffer
free rtx = Ring.free (sent_and_unsent_buffer rtx)

unfoldable pub buffered_unsent : RingTx → ℕ
unfolding unsent_ring
buffered_unsent rtx = Ring.buffered (unsent_ring rtx).0

unfoldable pub buffered_sent : RingTx → ℕ
unfolding sent_ring
buffered_sent rtx = Ring.buffered (sent_ring rtx).0

-- What `Write` does with the outcome of the ring's write, which has written into the shared buffer.
unfoldable pub keep_written : RingTx → Ran Written → Ran (RingTx × ℕ × Option Error)
keep_written rtx panicked = panicked
keep_written rtx (ran (r, n, some err)) = ran (record rtx { rawbuf = r.buf }, 0, some (ring err))
keep_written rtx (ran (r, n, none)) =
    ran (record rtx { rawbuf = r.buf; unsentend = r.stop }, n, none)

unfoldable pub write : RingTx → List ℕ → Ran (RingTx × ℕ × Option Error)
unfolding keep_written unsent_ring
write rtx b =
    let (unsent, lim) = unsent_ring rtx in
    keep_written rtx
      (if rtx.sentend == 0 then Ring.write unsent b else Ring.write_limited unsent b lim)

unfoldable pub sent_end_seq : RingTx → Option Value
sent_end_seq rtx = elim (newest rtx.slist.pkts) [ none ↦ none | some last ↦ some (end_seq last) ]

-- The loop over the sent packets that looks for an exact match.
unfoldable pub packet_at : List Ringidx → Value → Option Ringidx
packet_at [] current_seq = none
packet_at (pkt ∷ pkts) current_seq =
    let rest = packet_at pkts current_seq in if pkt.seq == current_seq then some pkt else rest

-- The bytes, the error and the state of a call of `MakePacket`.
abbrev pub Packet : Type 0
Packet = List ℕ × Option Error × RingTx

-- The bytes of a packet that is sent again; the rings are separate values, so nothing else changes.
unfoldable pub resent : RingTx → Ran Taken → Ran Packet
resent rtx panicked = panicked
resent rtx (ran (bytes, some err, r)) = ran (bytes, some (ring err), rtx)
resent rtx (ran (bytes, none, r)) = ran (bytes, none, rtx)

-- The end of `MakePacket`, with the ring that was read and the list with the new packet.
unfoldable pub keep_packet : RingTx → List ℕ → Ring → Ran (Sentlist × Ringidx) → Ran Packet
unfolding size add_end
keep_packet rtx bytes unsent panicked = panicked
keep_packet rtx bytes unsent (ran (slist', pkt)) =
    if not (pkt.off == rtx.unsentoff) || not (pkt.stop == add_end pkt.off (length bytes) (size rtx))
    then panicked
    else ran (
      bytes,
      none,
      record rtx {
        slist = slist';
        sentoff = if rtx.sentend == 0 then pkt.off else rtx.sentoff;
        unsentoff = if unsent.stop == 0 then pkt.stop else unsent.off;
        sentend = pkt.stop;
        unsentend = unsent.stop;
      },
    )

unfoldable pub send_unsent : RingTx → Value → Ran Taken → Ran Packet
unfolding keep_packet size
send_unsent rtx current_seq panicked = panicked
send_unsent rtx current_seq (ran (bytes, some err, unsent)) = ran ([], some (ring err), rtx)
send_unsent rtx current_seq (ran (bytes, none, unsent)) =
    keep_packet rtx bytes unsent
      (add_packet rtx.slist (length bytes) rtx.unsentoff (size rtx) current_seq)

unfoldable pub is_sent_before : Value → Option Value → Bool
is_sent_before current_seq none = false
is_sent_before current_seq (some end_seq') = less_than current_seq end_seq'

-- `MakePacket` into a slice of `n` bytes.
unfoldable pub make_packet : RingTx → ℕ → Value → Ran Packet
unfolding sent_end_seq is_sent_before packet_at resent send_unsent unsent_ring ring_over
make_packet rtx n current_seq =
    let (unsent, lim) = unsent_ring rtx in
    if slist_free rtx.slist == 0
    then ran ([], some buffer_full, rtx)
    else if is_sent_before current_seq (sent_end_seq rtx)
    then elim (packet_at rtx.slist.pkts current_seq) [
      | some pkt ↦ resent rtx (Ring.read (ring_over rtx pkt.off pkt.stop) n)
      | none ↦ ran ([], some bug, rtx)
    ]
    else if Ring.is_empty unsent
    then ran ([], none, rtx)
    else send_unsent rtx current_seq (Ring.read unsent n)

unfoldable pub consolidate_bufs : RingTx → RingTx
consolidate_bufs rtx =
    if rtx.unsentend == 0 && rtx.sentend == 0
    then record rtx { sentoff = 0; unsentoff = 0 }
    else rtx

-- `RecvACK` once the list has taken the acknowledgement.
unfoldable pub keep_acked : RingTx → Sentlist → RingTx
unfolding consolidate_bufs
keep_acked rtx slist' = consolidate_bufs (elim (oldest slist'.pkts) [
  | none ↦ record rtx { slist = slist'; sentend = 0 }
  | some first ↦ elim (newest slist'.pkts) [
    | none ↦ record rtx { slist = slist'; sentoff = first.off }
    | some last ↦ record rtx { slist = slist'; sentoff = first.off; sentend = last.stop }
  ]
])

unfoldable pub recv_acked : RingTx → Value → RingTx × Option Error
unfolding keep_acked size
recv_acked rtx ack =
    let (slist', err) = recv_ack rtx.slist ack (size rtx) in
    elim err [ some e ↦ (rtx, some (sent e)) | none ↦ (keep_acked rtx slist', none) ]

-- `RetransmitFrom` once the packet that contains the sequence number is found.
unfoldable pub rewind_to : RingTx → Ringidx → RingTx
rewind_to rtx pkt =
    let whole = pkt.off == rtx.sentoff in
    record rtx {
      sentoff = if whole then 0 else rtx.sentoff;
      sentend = if whole then 0 else pkt.off;
      unsentoff = pkt.off;
      unsentend = if rtx.unsentend == 0 then rtx.sentend else rtx.unsentend;
      slist = truncate_from rtx.slist pkt.seq;
    }

unfoldable pub retransmit_from : RingTx → Value → RingTx
unfolding rewind_to
retransmit_from rtx seq = elim (packet_containing rtx.slist.pkts seq) [
  | none ↦ rtx
  | some pkt ↦ rewind_to rtx pkt
]

unfoldable pub retransmit_from_una : RingTx → RingTx
unfolding retransmit_from
retransmit_from_una rtx = elim (oldest rtx.slist.pkts) [
  | none ↦ rtx
  | some pkt ↦ retransmit_from rtx pkt.seq
]
