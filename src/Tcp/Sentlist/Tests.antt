-- ===== src/Tcp/Sentlist/Tests.antt =====
-- Witnesses for tcp/txqueue.go: two packets of four bytes, sent across the wrap of the sequence
-- numbers.
use lneto.Base.{ℕ, ◌+◌, ◌≤◌, ◌<◌, ◌≡◌, refl, none, some, [], ◌∷◌, ◌++◌, arith, ran}
use lneto.Tcp.Value.{Value, less_than, less_than_eq, add}
use lneto.Tcp.Sentlist.{
  Ringidx, end_seq, is_rcvd, mark_rcvd, Sentlist, newest, slist_end_seq, slist_free,
  packet_containing, truncate_packets, truncate_from, add_end, add_off_wrapped, continues,
  add_packet, mark_acked, marked_ssn, keep_sent, remove_rcvd, ack_partial, recv_ack,
}
use lneto.Tcp.Sentlist.Run.{IsRun, total}
use lneto.Tcp.Sentlist.Rewind.{packet_containing-truncate_from}
use lneto.Tcp.Sentlist.Acks.{Acked, recv_ack-Acked}

abbrev start : Value
start = 4_294_967_294

abbrev two_packets : Sentlist
two_packets = record {
  ssn = start;
  pkts =
      record { off = 0; stop = 4; seq = start; size = 4 }
      ∷ record { off = 4; stop = 8; seq = 2; size = 4 }
      ∷ [];
  capacity = 4;
}

-- five bytes acknowledged: the second packet begins a byte further on
abbrev rest_packet : Sentlist
rest_packet = record {
  ssn = 2;
  pkts = record { off = 5; stop = 8; seq = 3; size = 3 } ∷ [];
  capacity = 4;
}

recv_ack-five : recv_ack two_packets 3 16 ≡ (rest_packet, none)
unfolding recv_ack newest mark_acked marked_ssn remove_rcvd keep_sent is_rcvd mark_rcvd ack_partial
    add_off_wrapped end_seq less_than less_than_eq add
recv_ack-five = refl

add_packet-third :
    add_packet two_packets 4 8 16 6
    ≡ ran (
      record two_packets {
        pkts = two_packets.pkts ++ (record { off = 8; stop = 12; seq = 6; size = 4 } ∷ []);
      },
      record { off = 8; stop = 12; seq = 6; size = 4 },
    )
unfolding add_packet slist_free newest continues add_end
add_packet-third = refl

truncate_from-second :
    truncate_from two_packets 2
    ≡ record two_packets { pkts = record { off = 0; stop = 4; seq = start; size = 4 } ∷ [] }
unfolding truncate_from truncate_packets
truncate_from-second = refl

recv_ack-Acked_example :
    (sl' : Sentlist) × (recv_ack two_packets (add start 5) 16 ≡ (sl', none))
    × Acked start 5 two_packets sl'
unfolding IsRun total add
recv_ack-Acked_example =
    (recv_ack-Acked start two_packets 5 16
        (omega arith, refl, omega arith, (omega arith, refl, omega arith, omega arith))
        (omega arith) (omega arith)).0
      (omega arith)

-- the number 3 is in the second packet
packet_containing-truncate_from_example :
    (pkt : Ringidx) × (j : ℕ) × (packet_containing two_packets.pkts (add start 5) ≡ some pkt)
    × (pkt.seq ≡ add start j)
    × (j ≤ 5)
    × (5 < j + pkt.size)
    × IsRun start (truncate_from two_packets pkt.seq).pkts
    × (total (truncate_from two_packets pkt.seq).pkts ≡ j)
    × (slist_end_seq (truncate_from two_packets pkt.seq) ≡ pkt.seq)
unfolding IsRun total add
packet_containing-truncate_from_example =
    packet_containing-truncate_from start two_packets 5
      (omega arith, refl, omega arith, (omega arith, refl, omega arith, omega arith)) (omega arith)
      (omega arith)
