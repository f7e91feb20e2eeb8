-- ===== src/Tcp/Sentlist.antt =====
-- tcp/txqueue.go: the list of sent packets, `sentlist`. `capacity` is the capacity of the slice
-- `pkts`; a pointer to a packet is the packet.
pub mod Run
pub mod Acks
pub mod Sends
pub mod Rewind
mod Tests
use lneto.Base.{
  ℕ, ◌+◌, ◌-◌, ◌%◌, ◌^◌, max, Bool, true, not, ◌&&◌, ◌||◌, Option, none, some, List, [], ◌∷◌, ◌++◌,
  ltb, leb, ◌==◌, if◌then◌else◌, add32, sub32, is_negative32, length, Ran, ran, panicked,
}
use lneto.Tcp.Value.{Value, Size, less_than, less_than_eq, add}

pub record Ringidx : Type 0 where
  pub off : ℕ
  pub stop : ℕ
  pub seq : Value
  pub size : Size

pub data Error : Type 0 where
  packet_drop : Error

unfoldable pub end_seq : Ringidx → Value
end_seq pkt = add pkt.seq pkt.size

unfoldable pub is_rcvd : Ringidx → Bool
is_rcvd pkt = pkt.size == 0

unfoldable pub mark_rcvd : Ringidx → Ringidx
mark_rcvd pkt = record { off = 0; stop = 0; seq = 0; size = 0 }

pub record Sentlist : Type 0 where
  pub ssn : Value
  pub pkts : List Ringidx
  pub capacity : ℕ

-- The capacity grows where `SliceReuse` has to make a new slice.
unfoldable pub reset : Sentlist → ℕ → Value → Sentlist
reset sl pkt_queue_size iss = record {
  ssn = iss;
  pkts = [];
  capacity = max sl.capacity pkt_queue_size;
}

unfoldable pub newest : List Ringidx → Option Ringidx
newest [] = none
newest (pkt ∷ []) = some pkt
newest (pkt ∷ pkt2 ∷ pkts) = newest (pkt2 ∷ pkts)

unfoldable pub oldest : List Ringidx → Option Ringidx
oldest [] = none
oldest (pkt ∷ pkts) = some pkt

unfoldable pub slist_end_seq : Sentlist → Value
unfolding newest
slist_end_seq sl = elim (newest sl.pkts) [ none ↦ sl.ssn | some last ↦ end_seq last ]

unfoldable pub slist_free : Sentlist → ℕ
slist_free sl = sl.capacity - length sl.pkts

unfoldable pub packet_containing : List Ringidx → Value → Option Ringidx
packet_containing [] seq = none
packet_containing (pkt ∷ pkts) seq =
    if less_than_eq pkt.seq seq && less_than seq (end_seq pkt)
    then some pkt
    else packet_containing pkts seq

-- The packets before the first one that starts at `seq`, where there is one.
unfoldable pub truncate_packets : List Ringidx → Value → Option (List Ringidx)
truncate_packets [] seq = none
truncate_packets (pkt ∷ pkts) seq =
    let rest = truncate_packets pkts seq in
    if pkt.seq == seq then some [] else elim rest [ none ↦ none | some kept ↦ some (pkt ∷ kept) ]

unfoldable pub truncate_from : Sentlist → Value → Sentlist
unfolding truncate_packets
truncate_from sl seq = elim (truncate_packets sl.pkts seq) [
  | none ↦ sl
  | some [] ↦ record sl { ssn = seq; pkts = [] }
  | some (pkt ∷ pkts) ↦ record sl { pkts = pkt ∷ pkts }
]

unfoldable pub add_end : ℕ → ℕ → ℕ → ℕ
add_end a b size = let result = a + b in if ltb size result then result - size else result

unfoldable pub add_off_wrapped : ℕ → ℕ → ℕ → ℕ
add_off_wrapped a b size = let result = a + b in if leb size result then result - size else result

-- The offset at which the packet after `last` may start.
unfoldable pub continues : Option Ringidx → ℕ → ℕ → Bool
continues none off bufsize = true
continues (some last) off bufsize = if off == 0 then last.stop == bufsize else off == last.stop

unfoldable pub add_packet : Sentlist → ℕ → ℕ → ℕ → Value → Ran (Sentlist × Ringidx)
unfolding slist_free newest continues add_end
add_packet sl datalen off bufsize seq =
    let pkt : Ringidx = record {
      off = off;
      stop = add_end off datalen bufsize;
      seq = seq;
      size = datalen % 2 ^ 32;
    } in
    if slist_free sl == 0
    then panicked
    else if not (continues (newest sl.pkts) off bufsize)
    then panicked
    else ran (record sl { pkts = sl.pkts ++ (pkt ∷ []) }, pkt)

-- The loop that marks fully acknowledged packets, and the counter it leaves.
unfoldable pub mark_acked : List Ringidx → Value → List Ringidx
unfolding end_seq mark_rcvd
mark_acked [] ack = []
mark_acked (pkt ∷ pkts) ack =
    let rest = mark_acked pkts ack in
    if less_than_eq (end_seq pkt) ack then mark_rcvd pkt ∷ rest else pkt ∷ pkts

unfoldable pub marked_ssn : List Ringidx → Value → Value → Value
unfolding end_seq
marked_ssn [] ssn ack = ssn
marked_ssn (pkt ∷ pkts) ssn ack =
    let rest = marked_ssn pkts (end_seq pkt) ack in
    if less_than_eq (end_seq pkt) ack then rest else ssn

unfoldable pub keep_sent : List Ringidx → List Ringidx
unfolding is_rcvd
keep_sent [] = []
keep_sent (pkt ∷ pkts) = let rest = keep_sent pkts in if is_rcvd pkt then rest else pkt ∷ rest

-- It looks at the oldest packet, which `RecvAck` has.
unfoldable pub remove_rcvd : List Ringidx → List Ringidx
unfolding is_rcvd keep_sent
remove_rcvd [] = []
remove_rcvd (pkt ∷ pkts) = if not (is_rcvd pkt) then pkt ∷ pkts else keep_sent (pkt ∷ pkts)

-- The part of an acknowledgement that ends inside the oldest packet left; `int32` of the
-- difference is positive below 2 ^ 31.
unfoldable pub ack_partial : List Ringidx → Value → ℕ → List Ringidx
unfolding add_off_wrapped
ack_partial [] ack bufsize = []
ack_partial (pkt ∷ pkts) ack bufsize =
    let total_acked = sub32 ack pkt.seq in
    if total_acked == 0 || is_negative32 total_acked
    then pkt ∷ pkts
    else record pkt {
      off = add_off_wrapped pkt.off total_acked bufsize;
      size = sub32 pkt.size total_acked;
      seq = add32 pkt.seq total_acked;
    }
      ∷ pkts

unfoldable pub recv_ack : Sentlist → Value → ℕ → Sentlist × Option Error
unfolding newest end_seq mark_acked marked_ssn remove_rcvd ack_partial
recv_ack sl ack bufsize = elim (newest sl.pkts) [
  | none ↦ (sl, some packet_drop)
  | some last ↦ if less_than (end_seq last) ack then (sl, some packet_drop) else (
    record sl {
      ssn = marked_ssn sl.pkts sl.ssn ack;
      pkts = ack_partial (remove_rcvd (mark_acked sl.pkts ack)) ack bufsize;
    },
    none,
  )
]
