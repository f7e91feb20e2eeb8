-- ===== src/Tcp/Reassembly/Receive.antt =====
-- tcp/reassembly.go: an in-order write followed by reassemble.
use lneto.Base.{
  ℕ, ◌+◌, ◌-◌, ◌^◌, ◌≤◌, ◌<◌, ◌≡◌, sym, ap, ◌∙◌, subst, false, none, List, [], ◌∷◌, ◌++◌,
  append_assoc, arith, IsU32, length, take, drop, ran,
}
use lneto.Tcp.Value.{Value, Size, add, sizeof}
use lneto.Internal.Ring.{Ring, free, write}
use lneto.Internal.Ring.Line.{IsValid, line, contents, free-le, length-line}
use lneto.Internal.Ring.Write.{write-contents, Appended}
use lneto.Tcp.Reassembly.{Held, Reassembly, deliver, reassemble}
use lneto.Tcp.Reassembly.Stream.{
  bytes, length-bytes, bytes_append, Placed, Chain, Chain-moved, Holds,
}
use lneto.Tcp.Reassembly.Deliver.{starts_at, Delivery, deliver_lem}

sizeof_past :
    (base v : Value) (p : ℕ)
    → IsU32 base
    → IsU32 v
    → p ≤ sizeof base v
    → sizeof (add base p) v ≡ sizeof base v - p
unfolding sizeof add
sizeof_past base v p hb hv h = omega arith

Placed-rebased :
    (stream : Value → ℕ) (base : Value) (p lo : ℕ) (l : List ℕ) (s : Held)
    → IsU32 base
    → p ≤ lo
    → Placed stream base p l lo s
    → Placed stream (add base p) 0 l (lo - p) s
Placed-rebased stream base p lo l s hb h a =
    let e = sizeof_past base s.seq p hb a.seq_in (omega (arith, a.above)) in
    record {
      seq_in = a.seq_in;
      above = omega (arith, a.above);
      some_bytes = a.some_bytes;
      staged = λ q.
          ap (λ k. take s.n (drop k l)) {x = sizeof (add base p) s.seq - 0}
            {y = sizeof base s.seq - p} (omega arith)
          ∙ a.staged (omega (arith, a.above));
    }

Chain-rebased :
    (stream : Value → ℕ) (base : Value) (p : ℕ) (l : List ℕ) (hi lo : ℕ) (held : List Held)
    → IsU32 base
    → p ≤ lo
    → Chain stream base p l hi lo held
    → Chain stream (add base p) 0 l (hi - p) (lo - p) held
unfolding Chain
Chain-rebased stream base p l hi lo [] hb h c = omega arith
Chain-rebased stream base p l hi lo (s ∷ ss) hb h (a, c) =
    let e = sizeof_past base s.seq p hb a.seq_in (omega (arith, a.above)) in
    (
      Placed-rebased stream base p lo l s hb h a,
      subst (λ k. Chain stream (add base p) 0 l (hi - p) k ss) {x = sizeof base s.seq + s.n - p}
          {y = sizeof (add base p) s.seq + s.n} (omega (arith, a.above))
          (Chain-rebased stream base p l hi (sizeof base s.seq + s.n) ss hb (omega (arith, a.above))
            c),
    )

-- The outcome of delivering the stream from `base`: the readable bytes grew by `total` of its bytes,
-- and the rest is held further.
pub record Received (stream : Value → ℕ) (base : Value) (rx : Ring) (total : ℕ) (r' : Reassembly)
    (rx' : Ring) : Type 0 where
  pub valid : IsValid rx'
  pub grown : contents rx' ≡ contents rx ++ bytes stream base total
  pub room : free rx' + total ≡ free rx
  pub holds : Holds stream (add base total) rx' r'
  pub gap_next : starts_at r'.held (add base total) ≡ false

received_lem :
    (stream : Value → ℕ) (base : Value) (r : Reassembly) (rx rx1 : Ring) (n : ℕ)
    (res : List Held × Ring × Size)
    → IsU32 base
    → Appended rx (bytes stream base n) rx1
    → (d : Delivery stream base n (free rx) rx1 0 res)
    → Received stream base rx (n + d.k) (record r { held = res.0 }) res.1
received_lem stream base r rx rx1 n res hb a d = record {
  valid = d.valid;
  grown =
      d.grown
      ∙ ap (λ u. u ++ bytes stream (add base n) d.k) a.appended
      ∙ append_assoc (contents rx) (bytes stream base n) (bytes stream (add base n) d.k)
      ∙ ap (λ u. contents rx ++ u) (bytes_append stream base n d.k hb);
  room = omega (arith, d.room);
  holds =
      subst (λ k. Chain stream (add base (n + d.k)) 0 (line res.1) k 0 res.0)
        {x = free rx - (n + d.k)} {y = free res.1} (omega (arith, d.room))
        (subst (λ k. Chain stream (add base (n + d.k)) 0 (line res.1) (free rx - (n + d.k)) k res.0)
          {x = n + d.k - (n + d.k)} {y = 0} (omega arith)
          (Chain-rebased stream base (n + d.k) (line res.1) (free rx) (n + d.k) res.0 hb
            (omega arith) d.still_held));
  gap_next = d.gap_next;
}

-- The receive path delivers the peer's stream. Let a valid ring of at most 2 ^ 31 free bytes hold
-- segments of a stream ahead of `base`, and let the next `n` bytes of the stream fit. Writing
-- them succeeds, and `reassemble` then reports some `k` bytes: the readable bytes have grown by
-- exactly the `n + k` bytes of the stream from `base` on, what is left is held ahead of the new
-- next sequence number, and no held segment begins at that number.
pub write-reassemble :
    (stream : Value → ℕ) (base : Value) (r : Reassembly) (rx : Ring) (n : ℕ)
    → IsU32 base
    → IsValid rx
    → free rx ≤ 2 ^ 31
    → Holds stream base rx r
    → 0 < n
    → n ≤ free rx
    → (rx1 : Ring) × (r' : Reassembly) × (rx' : Ring) × (k : ℕ) × (write rx (bytes stream base n)
        ≡ ran (rx1, n, none))
      × (reassemble r rx1 (add base n) ≡ (r', rx', k))
      × Received stream base rx (n + k) r' rx'
unfolding reassemble
write-reassemble stream base r rx n hb v w c p q =
    let b = bytes stream base n in
    let len : length b ≡ n = length-bytes stream base n in
    let (rx1, e, a) = (write-contents b v).2 (omega arith) (omega arith) in
    let line_eq : drop n (line rx) ++ b ≡ line rx1 =
      ap (λ k. drop k (line rx) ++ b) (sym len) ∙ sym a.line_moved in
    let moved =
      Chain-moved stream base 0 (line rx) (free rx) 0 r.held n b
        (omega (arith, length-line v, free-le v)) c in
    let d : Delivery stream base n (free rx) rx1 0 (deliver r.held rx1 (add base n) 0) =
      deliver_lem stream base r.held n (free rx) 0 rx1 0 hb a.valid (omega (arith, a.free_less)) w
        (omega arith)
        (subst (λ x. Chain stream base n x (free rx) 0 r.held) line_eq
          (subst (λ k. Chain stream base k (drop n (line rx) ++ b) (free rx) 0 r.held) {x = 0 + n}
            {y = n} (omega arith) moved)) in
    let res = deliver r.held rx1 (add base n) 0 in
    (
      rx1,
      record r { held = res.0 },
      res.1,
      d.k,
      e ∙ ap (λ k. ran (rx1, k, none)) len,
      ap (λ k. (record r { held = res.0 }, res.1, k)) (omega (arith, d.count)),
      received_lem stream base r rx rx1 n res hb a d,
    )
