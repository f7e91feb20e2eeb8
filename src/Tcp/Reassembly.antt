-- ===== src/Tcp/Reassembly.antt =====
-- tcp/reassembly.go: segments that arrived ahead of the next expected sequence number. `capacity` is
-- the capacity of the slice `held`; `int` is a 64-bit platform's, so a distance of sequence
-- numbers fits in it.
pub mod Stream
pub mod Deliver
pub mod Receive
pub mod Place
pub mod Insert
pub mod Store
mod Tests
use lneto.Base.{
  ℕ, zero, suc, ◌+◌, max, Bool, true, false, not, ◌||◌, none, some, List, [], ◌∷◌, ◌++◌, ltb, leb,
  ◌==◌, if◌then◌else◌, add32, length, get_elem?, take, drop,
}
use lneto.Tcp.Value.{Value, Size, less_than, add, sizeof}
use lneto.Internal.Ring.{Ring, free, peek_write, commit}

-- `reasmSeg`
pub record Held : Type 0 where
  pub seq : Value
  pub n : ℕ

pub record Reassembly : Type 0 where
  pub held : List Held
  pub capacity : ℕ

-- The capacity grows where `SliceReuse` has to make a new slice.
unfoldable pub reset : Reassembly → ℕ → Reassembly
reset r max_segs =
    if max_segs == 0
    then record { held = []; capacity = 0 }
    else record { held = []; capacity = max r.capacity max_segs }

unfoldable pub clear : Reassembly → Reassembly
clear r = record r { held = [] }

unfoldable pub enabled : Reassembly → Bool
enabled r = ltb 0 r.capacity

unfoldable pub held_bytes : List Held → ℕ
held_bytes [] = 0
held_bytes (s ∷ ss) = s.n + held_bytes ss

unfoldable pub buffered_bytes : Reassembly → ℕ
unfolding held_bytes
buffered_bytes r = held_bytes r.held

-- The insertion point: the number of segments at the front that begin before `seq`.
unfoldable pub insertion_point : List Held → Value → ℕ
insertion_point [] seq = 0
insertion_point (s ∷ ss) seq =
    let rest = insertion_point ss seq in if less_than s.seq seq then suc rest else 0

-- Whether the segment before the insertion point reaches past `seq`.
unfoldable pub overlaps_predecessor : List Held → ℕ → Value → Bool
overlaps_predecessor held zero seq = false
overlaps_predecessor held (suc i) seq = elim (get_elem? held i) [
  | none ↦ false
  | some prev ↦ less_than seq (add prev.seq prev.n)
]

-- What the segment at the insertion point says: it has the same start, it begins before `stop`,
-- or neither.
pub data Successor : Type 0 where
  duplicate overlapped clear_of : Successor

unfoldable pub successor : List Held → ℕ → Value → Value → Successor
successor held i seq stop = elim (get_elem? held i) [
  | none ↦ clear_of
  | some next ↦
      if next.seq == seq
      then duplicate
      else if less_than next.seq stop
      then overlapped
      else clear_of
]

-- Inserting at an index by `append` and `copy`.
unfoldable pub insert_at : List Held → ℕ → Held → List Held
insert_at held i s = take i held ++ (s ∷ drop i held)

-- The end of `store`, where the bytes go to the ring.
unfoldable pub stage : Reassembly → ℕ → Held → Ring × Bool → Reassembly × Ring × Bool
unfolding insert_at
stage r i s (rx, false) = (r, rx, false)
stage r i s (rx, true) = (record r { held = insert_at r.held i s }, rx, true)

unfoldable pub store_at :
    Reassembly → Ring → ℕ → ℕ → Value → List ℕ → Successor → Reassembly × Ring × Bool
unfolding stage
store_at r rx gap i seq payload duplicate = (r, rx, true)
store_at r rx gap i seq payload overlapped = (r, rx, false)
store_at r rx gap i seq payload clear_of =
    stage r i (record { seq = seq; n = length payload }) (peek_write rx payload gap)

unfoldable pub store : Reassembly → Ring → Value → Value → List ℕ → Reassembly × Ring × Bool
unfolding enabled insertion_point overlaps_predecessor successor store_at
store r rx rcv_nxt seq payload =
    let gap = sizeof rcv_nxt seq in
    let i = insertion_point r.held seq in
    if not (enabled r) || length payload == 0 || leb r.capacity (length r.held)
    then (r, rx, false)
    else if ltb (free rx) (gap + length payload)
    then (r, rx, false)
    else if overlaps_predecessor r.held i seq
    then (r, rx, false)
    else store_at r rx gap i seq payload (successor r.held i seq (add seq (length payload)))

-- The loop of `reassemble` over the segments from `i` on: those left, the ring and the bytes
-- delivered.
unfoldable pub deliver : List Held → Ring → Value → Size → List Held × Ring × Size
deliver [] rx nxt delivered = ([], rx, delivered)
deliver (s ∷ ss) rx nxt delivered =
    let (rx', err) = commit rx s.n in
    let next = deliver ss rx' (add nxt s.n) (add32 delivered s.n) in
    let stale = deliver ss rx nxt delivered in
    if s.seq == nxt
    then elim err [ none ↦ next | some e ↦ (s ∷ ss, rx', delivered) ]
    else if less_than s.seq nxt
    then stale
    else (s ∷ ss, rx, delivered)

unfoldable pub reassemble : Reassembly → Ring → Value → Reassembly × Ring × Size
unfolding deliver
reassemble r rx nxt =
    let (held', rx', delivered) = deliver r.held rx nxt 0 in
    (record r { held = held' }, rx', delivered)
