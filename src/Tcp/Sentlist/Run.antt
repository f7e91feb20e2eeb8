-- ===== src/Tcp/Sentlist/Run.antt =====
-- tcp/txqueue.go: packets without gaps, and what is left of them after an acknowledgement.
use lneto.Base.{
  ℕ, zero, suc, ◌+◌, ◌-◌, ◌^◌, ◌≤◌, ◌<◌, ◌≡◌, refl, sym, ap, ◌∙◌, subst, inl, inr, true, false,
  List, [], ◌∷◌, arith, leb, Bool-cases, leb→le, IsU32, add32, sub32,
}
use lneto.Tcp.Value.{Value, less_than, less_than_eq, add}
use lneto.Tcp.Sentlist.{
  Ringidx, end_seq, is_rcvd, mark_rcvd, add_off_wrapped, mark_acked, keep_sent, ack_partial,
}

-- Packets that carry the sequence numbers from `u` on without a gap, none of them empty.
unfoldable pub IsRun : Value → List Ringidx → Type 0
IsRun u [] = IsU32 u
IsRun u (p ∷ ps) = IsU32 u × (p.seq ≡ u) × (0 < p.size) × IsRun (add u p.size) ps

unfoldable pub total : List Ringidx → ℕ
total [] = 0
total (p ∷ ps) = p.size + total ps

pub keep_sent-IsRun : (u : Value) (ps : List Ringidx) → IsRun u ps → keep_sent ps ≡ ps
unfolding keep_sent IsRun is_rcvd
keep_sent-IsRun u [] r = refl
keep_sent-IsRun u (p ∷ ps) (a, b, c, r) = ground (arith, keep_sent-IsRun (add u p.size) ps r)

pub acked_iff :
    (u : Value) (p : Ringidx) (k : ℕ)
    → IsU32 u
    → p.seq ≡ u
    → p.size < 2 ^ 31
    → k < 2 ^ 31
    → less_than_eq (end_seq p) (add u k) ≡ leb p.size k
unfolding less_than_eq less_than end_seq add
acked_iff u p k h e q w = ground arith

-- What is left of packets after an acknowledgement.
abbrev pub left : List Ringidx → Value → ℕ → List Ringidx
left ps ack bufsize = ack_partial (keep_sent (mark_acked ps ack)) ack bufsize

pub left_acked :
    (p : Ringidx) (ps : List Ringidx) (ack : Value) (bufsize : ℕ)
    → less_than_eq (end_seq p) ack ≡ true
    → left (p ∷ ps) ack bufsize ≡ left ps ack bufsize
unfolding keep_sent mark_acked is_rcvd mark_rcvd
left_acked p ps ack bufsize h = rw h refl

pub left_first :
    (u : Value) (p : Ringidx) (ps : List Ringidx) (ack : Value) (bufsize : ℕ)
    → IsRun u (p ∷ ps)
    → less_than_eq (end_seq p) ack ≡ false
    → left (p ∷ ps) ack bufsize ≡ ack_partial (p ∷ ps) ack bufsize
unfolding mark_acked
left_first u p ps ack bufsize r h =
    rw h (ap (λ l. ack_partial l ack bufsize) (keep_sent-IsRun u (p ∷ ps) r))

pub add-IsU32 : (v : Value) (m : ℕ) → IsU32 (add v m)
unfolding add
add-IsU32 v m = omega arith

pub add_zero : (v : Value) → IsU32 v → add v 0 ≡ v
unfolding add
add_zero v h = omega arith

pub past : (u : Value) (m n : ℕ) → m ≤ n → add u n ≡ add (add u m) (n - m)
unfolding add
past u m n h = omega arith

pub partial_none :
    (u : Value) (p : Ringidx) (ps : List Ringidx) (bufsize : ℕ)
    → IsU32 u
    → p.seq ≡ u
    → ack_partial (p ∷ ps) (add u 0) bufsize ≡ p ∷ ps
unfolding ack_partial add
partial_none u p ps bufsize h e = ground arith

pub rest_of : Ringidx → ℕ → Value → ℕ → Ringidx
rest_of p k seq off = record { off = off; stop = p.stop; seq = seq; size = p.size - k }

pub partial_some :
    (u : Value) (p : Ringidx) (ps : List Ringidx) (k bufsize : ℕ)
    → IsU32 u
    → p.seq ≡ u
    → 0 < k
    → k < p.size
    → p.size < 2 ^ 31
    → (off : ℕ) × (ack_partial (p ∷ ps) (add u k) bufsize ≡ rest_of p k (add u k) off ∷ ps)
unfolding ack_partial add rest_of
partial_some u p ps k bufsize h e q l w =
    let t : sub32 (add u k) p.seq ≡ k = omega arith in
    let t2 : sub32 p.size k ≡ p.size - k = omega arith in
    let t3 : add32 p.seq k ≡ add u k = omega arith in
    (add_off_wrapped p.off k bufsize, rw (t, ack_partial, t2, t3) (ground arith))

pub partial-IsRun :
    (u : Value) (p : Ringidx) (ps : List Ringidx) (k bufsize : ℕ)
    → IsRun u (p ∷ ps)
    → p.size < 2 ^ 31
    → k < p.size
    → IsRun (add u k) (ack_partial (p ∷ ps) (add u k) bufsize)
      × (total (ack_partial (p ∷ ps) (add u k) bufsize) + k ≡ total (p ∷ ps))
unfolding IsRun total rest_of
partial-IsRun u p ps zero bufsize (a, b, c, r) w h =
    subst (λ l. IsRun (add u 0) l × (total l + 0 ≡ total (p ∷ ps)))
      (sym (partial_none u p ps bufsize a b))
      (subst (λ v. IsRun v (p ∷ ps)) (sym (add_zero u a)) (a, b, c, r), omega arith)
partial-IsRun u p ps (suc j) bufsize (a, b, c, r) w h =
    let k = suc j in
    let (off, e) = partial_some u p ps k bufsize a b (omega arith) h w in
    subst (λ l. IsRun (add u k) l × (total l + k ≡ total (p ∷ ps))) (sym e)
      (
        (
          add-IsU32 u k,
          refl,
          omega arith,
          subst (λ v. IsRun v ps) {x = add u p.size} {y = add (add u k) (p.size - k)}
              (past u k p.size (omega arith)) r,
        ),
        omega arith,
      )

pub left-IsRun :
    (u : Value) (ps : List Ringidx) (k bufsize : ℕ)
    → IsRun u ps
    → total ps < 2 ^ 31
    → k ≤ total ps
    → IsRun (add u k) (left ps (add u k) bufsize)
      × (total (left ps (add u k) bufsize) + k ≡ total ps)
unfolding IsRun total ack_partial keep_sent mark_acked
left-IsRun u [] k bufsize r w h = (add-IsU32 u k, omega arith)
left-IsRun u (p ∷ ps) k bufsize (a, b, c, r) w h =
    let iff = acked_iff u p k a b (omega arith) (omega arith) in
    elim (Bool-cases (leb p.size k)) [
      | inl y ↦
          let le = leb→le p.size k y in
          let e = left_acked p ps (add u k) bufsize (iff ∙ y) in
          let v = past u p.size k le in
          let (x, t) =
            left-IsRun (add u p.size) ps (k - p.size) bufsize r (omega arith) (omega arith) in
          let (x', t') =
            subst
              (λ z.
                IsRun z (left ps z bufsize) × (total (left ps z bufsize) + (k - p.size) ≡ total ps))
              (sym v) (x, t) in
          subst (λ l. IsRun (add u k) l × (total l + k ≡ p.size + total ps)) (sym e)
            (x', omega (arith, t'))
      | inr n ↦
          let e = left_first u p ps (add u k) bufsize (a, b, c, r) (iff ∙ n) in
          subst (λ l. IsRun (add u k) l × (total l + k ≡ p.size + total ps)) (sym e)
            (partial-IsRun u p ps k bufsize (a, b, c, r) (omega arith) (ground arith))
    ]
