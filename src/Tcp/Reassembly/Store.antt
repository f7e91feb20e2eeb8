-- ===== src/Tcp/Reassembly/Store.antt =====
-- tcp/reassembly.go: store keeps what is held in order, apart and in place.
use lneto.Base.{
  ℕ, zero, suc, ◌+◌, ◌^◌, ◌≤◌, ◌<◌, ◌≡◌, refl, sym, ap, ◌∙◌, subst, inl, inr, Bool, true, false,
  not, ◌||◌, List, [], ◌∷◌, ◌++◌, arith, ltb, leb, ◌==◌, Bool-cases, IsU32, length, take, drop,
  length-append, take-append-drop, length-take, length-drop,
}
use lneto.Tcp.Value.{Value, add, sizeof}
use lneto.Internal.Ring.{Ring, free}
use lneto.Internal.Ring.Line.{IsValid, line, contents, free-le, length-line}
use lneto.Internal.Ring.Stage.{peek_write-Staged}
use lneto.Tcp.Reassembly.{
  Held, Reassembly, enabled, insertion_point, overlaps_predecessor, Successor, duplicate,
  overlapped, clear_of, successor, insert_at, stage, store_at, store,
}
use lneto.Tcp.Reassembly.Stream.{bytes, length-bytes, Chain, Holds}
use lneto.Tcp.Reassembly.Insert.{insert-Chain}

unfoldable pub is_held : List Held → Value → Bool
is_held [] v = false
is_held (s ∷ ss) v = s.seq == v || is_held ss v

inserted_is_held : (held : List Held) (i : ℕ) (s : Held) → is_held (insert_at held i s) s.seq ≡ true
unfolding is_held insert_at
inserted_is_held [] zero s = ground arith
inserted_is_held [] (suc i) s = ground arith
inserted_is_held (t ∷ ts) zero s = ground arith
inserted_is_held (t ∷ ts) (suc i) s = ground (arith, inserted_is_held ts i s)

duplicate_is_held :
    (held : List Held) (i : ℕ) (seq stop : Value)
    → successor held i seq stop ≡ duplicate
    → is_held held seq ≡ true
unfolding is_held successor
duplicate_is_held [] i seq stop h = ground arith
duplicate_is_held (t ∷ ts) zero seq stop h = ground arith
duplicate_is_held (t ∷ ts) (suc i) seq stop h = ground (arith, duplicate_is_held ts i seq stop h)

length-insert_at :
    (held : List Held) (i : ℕ) (s : Held) → length (insert_at held i s) ≡ suc (length held)
unfolding insert_at
length-insert_at held i s =
    length-append (take i held) (s ∷ drop i held)
    ∙ omega (arith, length-take i held, length-drop i held)

-- the tests of `store` in their order
pub data Attempt (r : Reassembly) (rx : Ring) (base seq : Value) (b : List ℕ) : Type 0 where
  refused : store r rx base seq b ≡ (r, rx, false) → Attempt r rx base seq b
  tried :
      0 < length b
      → length r.held < r.capacity
      → sizeof base seq + length b ≤ free rx
      → overlaps_predecessor r.held (insertion_point r.held seq) seq ≡ false
      → store r rx base seq b
        ≡ store_at r rx
            (sizeof base seq)
            (insertion_point r.held seq)
            seq
            b
            (successor r.held (insertion_point r.held seq) seq (add seq (length b)))
      → Attempt r rx base seq b

attempt : (r : Reassembly) (rx : Ring) (base seq : Value) (b : List ℕ) → Attempt r rx base seq b
unfolding store enabled
attempt r rx base seq b =
    elim (Bool-cases (not (enabled r) || length b == 0 || leb r.capacity (length r.held))) [
      | inl y ↦ refused (rw (y, store) refl)
      | inr n ↦ elim (Bool-cases (ltb (free rx) (sizeof base seq + length b))) [
        | inl y ↦ refused (rw (n, y, store) refl)
        | inr f ↦ elim (Bool-cases (overlaps_predecessor r.held (insertion_point r.held seq) seq)) [
          | inl y ↦ refused (rw (n, f, y, store) refl)
          | inr o ↦ tried (ground arith) (ground arith) (ground arith) o (rw (n, f, o, store) refl)
        ]
      ]
    ]

-- Of the segments that were held none is gone, and no other is new than that of `n` bytes at `seq`.
pub data Retained (held : List Held) (seq : Value) (n : ℕ) (held' : List Held) : Type 0 where
  same : held' ≡ held → Retained held seq n held'
  added :
      (front back : List Held)
      → held ≡ front ++ back
      → held' ≡ front ++ (record { seq = seq; n = n } ∷ back)
      → Retained held seq n held'

-- What `store` leaves: nothing that can be read changed, and what is held is still held, in order,
-- apart and in place; on a refusal nothing changed at all, and else the segment is held.
pub record Stored (stream : Value → ℕ) (base : Value) (r : Reassembly) (rx : Ring) (seq : Value)
    (n : ℕ) (res : Reassembly × Ring × Bool) : Type 0 where
  pub valid : IsValid res.1
  pub same_contents : contents res.1 ≡ contents rx
  pub same_free : free res.1 ≡ free rx
  pub holds : Holds stream base res.1 res.0
  pub retained : Retained r.held seq n res.0.held
  pub bounded : length r.held ≤ r.capacity → length res.0.held ≤ res.0.capacity
  pub taken : res.2 ≡ true → is_held res.0.held seq ≡ true
  pub kept : res.2 ≡ false → (res.0 ≡ r) × (res.1 ≡ rx)

inserted-Retained :
    (held : List Held) (i : ℕ) (seq : Value) (n : ℕ)
    → Retained held seq n (insert_at held i (record { seq = seq; n = n }))
unfolding insert_at
inserted-Retained held i seq n =
    added (take i held) (drop i held) (sym (take-append-drop i held)) refl

unchanged-Stored :
    (stream : Value → ℕ) (base : Value) (r : Reassembly) (rx : Ring) (seq : Value) (n : ℕ)
    (ok : Bool)
    → IsValid rx
    → Holds stream base rx r
    → (ok ≡ true → is_held r.held seq ≡ true)
    → Stored stream base r rx seq n (r, rx, ok)
unchanged-Stored stream base r rx seq n ok v c t = record {
  valid = v;
  same_contents = refl;
  same_free = refl;
  holds = c;
  retained = same refl;
  bounded = λ h. h;
  taken = t;
  kept = λ h. (refl, refl);
}

-- The arguments that `store` gives its last step, once the tests before it have passed.
module _ (stream : Value → ℕ) (base seq : Value) (n : ℕ) (r : Reassembly) (rx : Ring)
    (hb : IsU32 base) (hs : IsU32 seq) (v : IsValid rx) (w : free rx ≤ 2 ^ 31)
    (c : Holds stream base rx r) (p : 0 < n) (f : sizeof base seq + n ≤ free rx)
    (room : length r.held < r.capacity)
    (o : overlaps_predecessor r.held (insertion_point r.held seq) seq ≡ false) where
  staged-Stored :
      successor r.held (insertion_point r.held seq) seq (add seq n) ≡ clear_of
      → Stored stream base r rx seq n (
          store_at r rx
            (sizeof base seq)
            (insertion_point r.held seq)
            seq
            (bytes stream seq n)
            clear_of)
  unfolding store_at stage
  staged-Stored succ =
      let b = bytes stream seq n in
      let len : length b ≡ n = length-bytes stream seq n in
      let i = insertion_point r.held seq in
      let x : Held = record { seq = seq; n = n } in
      let (rx', e, s) = (peek_write-Staged b (sizeof base seq) v).0 (omega (arith, len)) in
      let placed =
        insert-Chain stream base seq (line rx) b (free rx) 0 n r.held hb hs w
          (omega (arith, length-line v, free-le v)) p refl (omega arith) f o succ c in
      subst (λ q. Stored stream base r rx seq n (stage r i (record { seq = seq; n = length b }) q))
        (sym e)
        (subst
          (λ k. Stored stream base r rx seq n (stage r i (record { seq = seq; n = k }) (rx', true)))
          (sym len)
          (record {
            valid = s.valid;
            same_contents = s.same_contents;
            same_free = s.same_free;
            holds =
                subst (λ q. Chain stream base 0 (line rx') q 0 (insert_at r.held i x))
                  (sym s.same_free)
                  (subst (λ q. Chain stream base 0 q (free rx) 0 (insert_at r.held i x))
                    (sym s.line_staged) placed);
            retained = inserted-Retained r.held i seq n;
            bounded = λ h. omega (arith, length-insert_at r.held i x);
            taken = λ h. inserted_is_held r.held i x;
            kept = λ h. absurd (ground arith);
          }))

  store_at-Stored :
      (next : Successor)
      → successor r.held (insertion_point r.held seq) seq (add seq n) ≡ next
      → Stored stream base r rx seq n (
          store_at r rx
            (sizeof base seq)
            (insertion_point r.held seq)
            seq
            (bytes stream seq n)
            next)
  unfolding store_at
  store_at-Stored duplicate succ =
      unchanged-Stored stream base r rx seq n true v c
        (λ h. duplicate_is_held r.held (insertion_point r.held seq) seq (add seq n) succ)
  store_at-Stored overlapped succ =
      unchanged-Stored stream base r rx seq n false v c (λ h. absurd (ground arith))
  store_at-Stored clear_of succ = staged-Stored succ

-- Storing bytes of the stream that arrived ahead of `base`, on a valid ring of at most 2 ^ 31 free
-- bytes whose free region holds segments of the stream: the ring stays valid, nothing that can be
-- read or is free changes, every segment that was held is still held, none is new but that of `n`
-- bytes at `seq`, and all that is held is in order, apart and in place, within the capacity. Where
-- `store` reports true, a segment that starts at `seq` is held; where it reports false, nothing
-- changed at all.
pub store-Stored :
    (stream : Value → ℕ) (base seq : Value) (n : ℕ) (r : Reassembly) (rx : Ring)
    → IsU32 base
    → IsU32 seq
    → IsValid rx
    → free rx ≤ 2 ^ 31
    → Holds stream base rx r
    → Stored stream base r rx seq n (store r rx base seq (bytes stream seq n))
store-Stored stream base seq n r rx hb hs v w c =
    let b = bytes stream seq n in
    let len : length b ≡ n = length-bytes stream seq n in
    elim (attempt r rx base seq b) [
      | refused e ↦
          subst (Stored stream base r rx seq n) (sym e)
            (unchanged-Stored stream base r rx seq n false v c (λ h. absurd (ground arith)))
      | tried p room f o e ↦
          let i = insertion_point r.held seq in
          let next = successor r.held i seq (add seq (length b)) in
          subst (Stored stream base r rx seq n) (sym e) (
            store_at-Stored stream base seq n r rx hb hs v w c (omega (arith, len))
              (omega (arith, len)) room o next
              (ap (λ k. successor r.held i seq (add seq k)) (sym len)))
    ]
