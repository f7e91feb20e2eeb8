-- ===== src/Tcp/Reassembly/Deliver.antt =====
-- tcp/reassembly.go: reassemble delivers the stream.
use lneto.Base.{
  ℕ, ◌+◌, ◌-◌, ◌^◌, ◌≤◌, ◌<◌, ◌≡◌, refl, sym, ap, ap₂, ◌∙◌, subst, ◌≢◌, inl, inr, Bool, true, false,
  Option, none, some, List, [], ◌∷◌, ◌++◌, append-nil, append_assoc, arith, ltb, ◌==◌, Bool-cases,
  ==_iff, ltb→lt, IsU32, add32, take, drop,
}
use lneto.Tcp.Value.{Value, Size, less_than, add, sizeof}
use lneto.Internal.Ring.{Error, Ring, size, free, commit}
use lneto.Internal.Ring.Line.{IsValid, line, contents, free-le, length-line}
use lneto.Internal.Ring.Write.{Appended}
use lneto.Internal.Ring.Stage.{commit-contents}
use lneto.Tcp.Reassembly.{Held, deliver}
use lneto.Tcp.Reassembly.Stream.{
  bytes, length-bytes, add-add, add-IsU32, bytes_append, Placed, Chain, Chain-le, Chain-moved,
}

-- `reassemble` after its call of `Commit`
after_commit : Held → List Held → Value → Size → Ring × Option Error → List Held × Ring × Size
after_commit s ss nxt delivered (rx', err) = elim err [
  | none ↦ deliver ss rx' (add nxt s.n) (add32 delivered s.n)
  | some e ↦ (s ∷ ss, rx', delivered)
]

deliver_match :
    (s : Held) (ss : List Held) (rx rx' : Ring) (nxt : Value) (delivered : Size)
    → s.seq ≡ nxt
    → commit rx s.n ≡ (rx', none)
    → deliver (s ∷ ss) rx nxt delivered ≡ deliver ss rx' (add nxt s.n) (add32 delivered s.n)
unfolding deliver after_commit
deliver_match s ss rx rx' nxt delivered h e =
    rw ((==_iff s.seq nxt).1 h, deliver)
      (ap (λ (q : Ring × Option Error). after_commit s ss nxt delivered q) e)

deliver_stale :
    (s : Held) (ss : List Held) (rx : Ring) (nxt : Value) (delivered : Size)
    → s.seq ≢ nxt
    → less_than s.seq nxt ≡ true
    → deliver (s ∷ ss) rx nxt delivered ≡ deliver ss rx nxt delivered
unfolding deliver
deliver_stale s ss rx nxt delivered h e = ground arith

deliver_gap :
    (s : Held) (ss : List Held) (rx : Ring) (nxt : Value) (delivered : Size)
    → s.seq ≢ nxt
    → less_than s.seq nxt ≡ false
    → deliver (s ∷ ss) rx nxt delivered ≡ (s ∷ ss, rx, delivered)
unfolding deliver
deliver_gap s ss rx nxt delivered h e = ground arith

-- whether the first held segment begins at a sequence number
unfoldable pub starts_at : List Held → Value → Bool
starts_at [] v = false
starts_at (s ∷ ss) v = s.seq == v

-- `k` bytes of the stream were delivered from `p` places after `base` on, and no held segment could
-- be delivered next.
pub record Delivery (stream : Value → ℕ) (base : Value) (p hi : ℕ) (rx : Ring) (delivered : ℕ)
    (res : List Held × Ring × Size) : Type 0 where
  pub k : ℕ
  pub count : res.2 ≡ delivered + k
  pub valid : IsValid res.1
  pub grown : contents res.1 ≡ contents rx ++ bytes stream (add base p) k
  pub room : p + k + free res.1 ≡ hi
  pub same_size : size res.1 ≡ size rx
  pub still_held : Chain stream base (p + k) (line res.1) hi (p + k) res.0
  pub gap_next : starts_at res.0 (add base (p + k)) ≡ false

nothing_delivered :
    (stream : Value → ℕ) (base : Value) (p hi : ℕ) (rx : Ring) (delivered : ℕ) (held : List Held)
    → IsValid rx
    → hi ≡ p + free rx
    → Chain stream base p (line rx) hi p held
    → starts_at held (add base p) ≡ false
    → Delivery stream base p hi rx delivered (held, rx, delivered)
unfolding bytes
nothing_delivered stream base p hi rx delivered held v h c g = record {
  k = 0;
  count = omega arith;
  valid = v;
  grown = sym (append-nil (contents rx));
  room = omega arith;
  same_size = refl;
  still_held =
      subst (λ q. Chain stream base q (line rx) hi q held) {x = p} {y = p + 0} (omega arith) c;
  gap_next = ap (λ q. starts_at held (add base q)) {x = p + 0} {y = p} (omega arith) ∙ g;
}

-- One more segment in front of a delivery.
Delivery-after :
    (stream : Value → ℕ) (base : Value) (p hi n : ℕ) (rx rx' : Ring) (delivered : ℕ)
    (res : List Held × Ring × Size)
    → Appended rx (bytes stream (add base p) n) rx'
    → Delivery stream base (p + n) hi rx' (delivered + n) res
    → Delivery stream base p hi rx delivered res
Delivery-after stream base p hi n rx rx' delivered res a d =
    let e : p + n + d.k ≡ p + (n + d.k) = omega arith in
    record {
      k = n + d.k;
      count = omega (arith, d.count);
      valid = d.valid;
      grown =
          d.grown
          ∙ ap₂ (λ u w. u ++ bytes stream w d.k) a.appended (sym (add-add base p n))
          ∙ append_assoc (contents rx) (bytes stream (add base p) n)
              (bytes stream (add (add base p) n) d.k)
          ∙ ap (λ u. contents rx ++ u) (bytes_append stream (add base p) n d.k (add-IsU32 base p));
      room = omega (arith, d.room);
      same_size = d.same_size ∙ a.same_size;
      still_held = subst (λ q. Chain stream base q (line res.1) hi q res.0) e d.still_held;
      gap_next = ap (λ q. starts_at res.0 (add base q)) (sym e) ∙ d.gap_next;
    }

before_next :
    (base v : Value) (p : ℕ)
    → IsU32 base
    → IsU32 v
    → p ≤ 2 ^ 31
    → sizeof base v < p
    → (v ≢ add base p) × (less_than v (add base p) ≡ true)
unfolding sizeof add less_than
before_next base v p hb hv hp h = (omega arith, ground arith)

after_next :
    (base v : Value) (p : ℕ)
    → IsU32 base
    → IsU32 v
    → p < sizeof base v
    → sizeof base v < 2 ^ 31
    → (v ≢ add base p) × (less_than v (add base p) ≡ false)
unfolding sizeof add less_than
after_next base v p hb hv h hp = (omega arith, ground arith)

at_next : (base v : Value) (p : ℕ) → IsU32 base → IsU32 v → sizeof base v ≡ p → v ≡ add base p
unfolding sizeof add
at_next base v p hb hv h = omega arith

-- The first of the held segments is next: `Commit` appends its bytes of the stream.
first_committed :
    (stream : Value → ℕ) (base : Value) (p hi : ℕ) (rx : Ring) (s : Held)
    → IsU32 base
    → IsValid rx
    → sizeof base s.seq ≡ p
    → s.n ≤ free rx
    → Placed stream base p (line rx) p s
    → (rx' : Ring) × (commit rx s.n ≡ (rx', none)) × Appended rx (bytes stream (add base p) s.n) rx'
first_committed stream base p hi rx s hb v e f a =
    let (rx', c, g) = commit-contents s.n v a.some_bytes f in
    let b : take s.n (line rx) ≡ bytes stream (add base p) s.n =
      ap (λ k. take s.n (drop k (line rx))) {x = 0} {y = sizeof base s.seq - p} (omega arith)
      ∙ a.staged (omega arith)
      ∙ ap (λ w. bytes stream w s.n) (at_next base s.seq p hb a.seq_in e) in
    (rx', c, subst (λ x. Appended rx x rx') b g)

add32_small : (m n : ℕ) → m + n < 2 ^ 32 → add32 m n ≡ m + n
add32_small m n h = omega arith

pub deliver_lem :
    (stream : Value → ℕ) (base : Value) (held : List Held) (p hi lo : ℕ) (rx : Ring) (delivered : ℕ)
    → IsU32 base
    → IsValid rx
    → hi ≡ p + free rx
    → hi ≤ 2 ^ 31
    → delivered ≤ p
    → Chain stream base p (line rx) hi lo held
    → Delivery stream base p hi rx delivered (deliver held rx (add base p) delivered)
unfolding Chain deliver starts_at
deliver_lem stream base [] p hi lo rx delivered hb v h w m c =
    nothing_delivered stream base p hi rx delivered [] v h (omega arith) refl
deliver_lem stream base (s ∷ ss) p hi lo rx delivered hb v h w m (a, c) =
    let d = sizeof base s.seq in
    let top = Chain-le stream base p (line rx) hi (d + s.n) ss c in
    elim (Bool-cases (d == p)) [
      | inl e ↦
          let q : d ≡ p = (==_iff d p).0 e in
          let (rx', k, g) = first_committed stream base p hi rx s hb v q (omega arith) (record {
            seq_in = a.seq_in;
            above = omega arith;
            some_bytes = a.some_bytes;
            staged = a.staged;
          }) in
          let len = length-bytes stream (add base p) s.n in
          let f : hi ≡ p + s.n + free rx' = omega (arith, g.free_less, len) in
          let line_eq : drop s.n (line rx) ++ bytes stream (add base p) s.n ≡ line rx' =
            ap (λ k. drop k (line rx) ++ bytes stream (add base p) s.n) (sym len)
            ∙ sym g.line_moved in
          let moved =
            Chain-moved stream base p (line rx) hi (d + s.n) ss s.n (bytes stream (add base p) s.n)
              (omega (arith, length-line v, free-le v)) c in
          subst (Delivery stream base p hi rx delivered)
            (sym (
              deliver_match s ss rx rx' (add base p) delivered (at_next base s.seq p hb a.seq_in q)
                k
              ∙ ap₂ (deliver ss rx') (add-add base p s.n)
                  (add32_small delivered s.n (omega arith))))
            (Delivery-after stream base p hi s.n rx rx' delivered
              (deliver ss rx' (add base (p + s.n)) (delivered + s.n)) g
              (deliver_lem stream base ss (p + s.n) hi (d + s.n) rx' (delivered + s.n) hb g.valid f
                w (omega arith)
                (subst (λ x. Chain stream base (p + s.n) x hi (d + s.n) ss) line_eq moved)))
      | inr n ↦ elim (Bool-cases (ltb d p)) [
        | inl l ↦
            let (ne, le) = before_next base s.seq p hb a.seq_in (omega arith) (ltb→lt d p l) in
            subst (Delivery stream base p hi rx delivered)
              (sym (deliver_stale s ss rx (add base p) delivered ne le))
              (deliver_lem stream base ss p hi (d + s.n) rx delivered hb v h w m c)
        | inr g ↦
            let p_lt : p < d = ground arith in
            let (ne, le) = after_next base s.seq p hb a.seq_in p_lt (omega (arith, a.some_bytes)) in
            subst (Delivery stream base p hi rx delivered)
              (sym (deliver_gap s ss rx (add base p) delivered ne le))
              (nothing_delivered stream base p hi rx delivered (s ∷ ss) v h
                (
                  record {
                    seq_in = a.seq_in;
                    above = omega arith;
                    some_bytes = a.some_bytes;
                    staged = a.staged;
                  },
                  c,
                )
                (ground arith))
      ]
    ]
