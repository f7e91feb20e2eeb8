-- ===== src/Tcp/RingTx/Tests.antt =====
-- Witnesses for the transmit ring of tcp/txqueue.go, on a buffer of eight bytes: three bytes in
-- flight from index 5 on, two more behind them from index 0 on, and one byte not sent.
use lneto.Base.{
  ℕ, ◌≡◌, refl, inr, Option, none, List, [], ◌∷◌, arith, write_at, rotate, Ran, ran, panicked,
}
use lneto.Tcp.Value.{less_than, less_than_eq, add}
use lneto.Internal.Ring.{Ring, emptied, is_full, is_empty, mid_free, write_start, read_bytes}
use lneto.Internal.Ring.Line.{line}
use lneto.Tcp.Sentlist.{
  Ringidx, newest, oldest, end_seq, slist_free, packet_containing, truncate_from, add_end,
  add_packet, continues, truncate_packets,
}
use lneto.Tcp.RingTx.{
  RingTx, keep_written, Packet, is_sent_before, sent_end_seq, make_packet, rewind_to,
  retransmit_from,
}
use lneto.Tcp.RingTx.Regions.{Holds}
use lneto.Internal.Ring
use lneto.Tcp.RingTx
use lneto.Tcp.RingTx.Writes.{write-Holds}
use lneto.Tcp.RingTx.Sends.{make_packet-Holds}
use lneto.Tcp.RingTx.Rewind.{Overrun, retransmit_from_wrapped}
use lneto.Tcp.Sentlist.Sends.{sent_packet}

abbrev first_packet : Ringidx
first_packet = record { off = 5; stop = 8; seq = 100; size = 3 }

abbrev second_packet : Ringidx
second_packet = record { off = 0; stop = 2; seq = 103; size = 2 }

abbrev tx : RingTx
tx = record {
  rawbuf = 14 ∷ 15 ∷ 16 ∷ 0 ∷ 0 ∷ 11 ∷ 12 ∷ 13 ∷ [];
  unsentoff = 2;
  unsentend = 3;
  sentoff = 5;
  sentend = 2;
  slist = record { ssn = 100; pkts = first_packet ∷ second_packet ∷ []; capacity = 4 };
  iss = 99;
}

tx-Holds : Holds tx (11 ∷ 12 ∷ 13 ∷ 14 ∷ 15 ∷ []) (16 ∷ []) (0 ∷ 0 ∷ [])
unfolding line write_start Ring.size rotate Ring.free continues newest
tx-Holds = record {
  valid = record { off_in = omega arith; stop_in = omega arith };
  layout = refl;
  room = refl;
  sent_none = refl;
  sent_at = λ m. (omega arith, inr (omega arith));
  last_sent = refl;
}

write-Holds_example :
    (rtx' : RingTx) × (RingTx.write tx (17 ∷ 18 ∷ []) ≡ ran (rtx', 2, none))
    × Holds rtx' (11 ∷ 12 ∷ 13 ∷ 14 ∷ 15 ∷ []) (16 ∷ 17 ∷ 18 ∷ []) []
write-Holds_example = (write-Holds tx (17 ∷ 18 ∷ []) tx-Holds).0 (omega arith) (omega arith)

make_packet-Holds_example :
    (rtx' : RingTx) × (make_packet tx 4 105 ≡ ran (16 ∷ [], none, rtx'))
    × Holds rtx' (11 ∷ 12 ∷ 13 ∷ 14 ∷ 15 ∷ 16 ∷ []) [] (0 ∷ 0 ∷ [])
    × (rtx'.slist.pkts ≡ first_packet ∷ second_packet ∷ sent_packet 105 1 2 8 ∷ [])
unfolding is_sent_before sent_end_seq newest end_seq add less_than
make_packet-Holds_example =
    make_packet-Holds tx 4 105 tx-Holds (omega arith) (omega arith) (omega arith) (omega arith) refl

-- the five bytes fit over the first packet, which is still in the list
abbrev five_bytes : List ℕ
five_bytes = 21 ∷ 22 ∷ 23 ∷ 24 ∷ 25 ∷ []

retransmit_from_wrapped_example :
    Overrun
      (retransmit_from tx 103)
      3
      (truncate_from tx.slist 103)
      (11 ∷ 12 ∷ 13 ∷ 14 ∷ 15 ∷ [])
      (16 ∷ [])
      (0 ∷ 0 ∷ [])
      five_bytes
unfolding packet_containing less_than_eq less_than end_seq add
retransmit_from_wrapped_example =
    retransmit_from_wrapped tx 103 second_packet five_bytes tx-Holds refl refl (omega arith) refl
      (omega arith) (omega arith) (omega arith) (omega arith)

-- A later retransmission of the first packet then gives other bytes than were written, 11, 12, 13.
first_packet_bytes : Ran Packet → List ℕ
first_packet_bytes panicked = []
first_packet_bytes (ran (bytes, err, rtx)) = bytes

after_five : Ran (RingTx × ℕ × Option RingTx.Error) → List ℕ
after_five panicked = []
after_five (ran (rtx, n, err)) = first_packet_bytes (make_packet (retransmit_from rtx 100) 3 100)

overwritten : after_five (RingTx.write (retransmit_from tx 103) five_bytes) ≡ 23 ∷ 24 ∷ 25 ∷ []
unfolding after_five first_packet_bytes RingTx.write make_packet retransmit_from packet_containing
    truncate_from truncate_packets Ring.write Ring.write_tail Ring.read Ring.read_after
    Ring.on_read_end Ring.add_off Ring.finish_read read_bytes is_empty is_full mid_free emptied
    Ring.free Ring.size Ring.copy_to Ring.check_stop slist_free newest end_seq add less_than
    less_than_eq add_packet continues add_end rewind_to oldest write_at keep_written
overwritten = refl
