-- ===== src/Internal/Ring/Queue.antt =====
-- internal/ring.go: a ring against a bounded queue of bytes.
use lneto.Base.{
  ℕ, ◌+◌, ◌≤◌, ◌<◌, min, ◌≡◌, refl, sym, ap, ◌∙◌, inl, inr, Option, none, some, List, [], ◌∷◌, ◌++◌,
  arith, ltb, leb, ◌==◌, if◌then◌else◌, Bool-cases, ==_iff, ltb→lt, tests, length, take, drop,
  drop_all, Ran, ran, panicked,
}
use lneto.Internal.Ring.{
  Error, buffer_full, empty_write, invalid_discard, discard_exceeds, eof, Ring, size, free,
  buffered, Written, write, read_discard, Taken, read, reset,
}
use lneto.Internal.Ring.Line.{IsValid, contents, length-contents}
use lneto.Internal.Ring.Write.{write-contents}
use lneto.Internal.Ring.Discard.{read_discard-contents}
use lneto.Internal.Ring.Read.{read-contents}

-- A call of a client, and what the client sees of it.
pub data Op : Type 0 where
  put : List ℕ → Op
  get : ℕ → Op
  skip : ℕ → Op
  clear : Op

pub data Reply : Type 0 where
  wrote : ℕ → Option Error → Reply
  got : List ℕ → Option Error → Reply
  skipped : Option Error → Reply
  cleared : Reply

-- The queue: at most `cap` bytes, oldest first.
unfoldable pub queue_step : ℕ → List ℕ → Op → List ℕ × Reply
queue_step cap q (put b) =
    if length b == 0
    then (q, wrote 0 (some empty_write))
    else if ltb cap (length q + length b)
    then (q, wrote 0 (some buffer_full))
    else (q ++ b, wrote (length b) none)
queue_step cap q (get n) =
    if n == 0
    then (q, got [] none)
    else if length q == 0
    then (q, got [] (some eof))
    else (drop n q, got (take n q) none)
queue_step cap q (skip n) =
    if n == 0
    then (q, skipped (some invalid_discard))
    else if ltb (length q) n
    then (q, skipped (some discard_exceeds))
    else (drop n q, skipped none)
queue_step cap q clear = ([], cleared)

unfoldable pub queue_run : ℕ → List ℕ → List Op → List Reply
queue_run cap q [] = []
queue_run cap q (op ∷ ops) = let (q', a) = queue_step cap q op in a ∷ queue_run cap q' ops

put_reply : Ran Written → Ran (Ring × Reply)
put_reply panicked = panicked
put_reply (ran (r, n, e)) = ran (r, wrote n e)

get_reply : Ran Taken → Ran (Ring × Reply)
get_reply panicked = panicked
get_reply (ran (bytes, e, r)) = ran (r, got bytes e)

-- The same calls on the ring.
pub ring_step : Ring → Op → Ran (Ring × Reply)
unfolding put_reply get_reply
ring_step r (put b) = put_reply (write r b)
ring_step r (get n) = get_reply (read r n)
ring_step r (skip n) = let (r', e) = read_discard r n in ran (r', skipped e)
ring_step r clear = ran (reset r, cleared)

push_reply : Reply → Ran (List Reply) → Ran (List Reply)
push_reply a panicked = panicked
push_reply a (ran rest) = ran (a ∷ rest)

and_then : (Ring → Ran (List Reply)) → Ran (Ring × Reply) → Ran (List Reply)
unfolding push_reply
and_then f panicked = panicked
and_then f (ran (r, a)) = push_reply a (f r)

pub ring_run : Ring → List Op → Ran (List Reply)
unfolding and_then
ring_run r [] = ran []
ring_run r (op ∷ ops) = and_then (λ r'. ring_run r' ops) (ring_step r op)

-- One step of the ring is one step of the queue that it holds.
record Follows (r : Ring) (op : Op) (r' : Ring) (a : Reply) : Type 0 where
  stepped : ring_step r op ≡ ran (r', a)
  valid : IsValid r'
  same_size : size r' ≡ size r
  follows : queue_step (size r) (contents r) op ≡ (contents r', a)

queue_put :
    (cap : ℕ) (q b : List ℕ)
    → 0 < length b
    → length q + length b ≤ cap
    → queue_step cap q (put b) ≡ (q ++ b, wrote (length b) none)
unfolding queue_step
queue_put cap q b p h = ground arith

queue_put_full :
    (cap : ℕ) (q b : List ℕ)
    → 0 < length b
    → cap < length q + length b
    → queue_step cap q (put b) ≡ (q, wrote 0 (some buffer_full))
unfolding queue_step
queue_put_full cap q b p h = ground arith

queue_put_none :
    (cap : ℕ) (q : List ℕ) → queue_step cap q (put []) ≡ (q, wrote 0 (some empty_write))
unfolding queue_step
queue_put_none cap q = refl

put-Follows :
    {r : Ring} (b : List ℕ) → IsValid r → (r' : Ring) × (a : Reply) × Follows r (put b) r' a
unfolding ring_step
put-Follows {r} [] v = (
  r,
  wrote 0 (some empty_write),
  record {
    stepped = ap put_reply ((write-contents [] v).0 refl);
    valid = v;
    same_size = refl;
    follows = queue_put_none (size r) (contents r);
  },
)
put-Follows {r} (x ∷ b) v = elim (Bool-cases (ltb (free r) (length (x ∷ b)))) [
  | inl h ↦
      let lt = ltb→lt (free r) (length (x ∷ b)) h in
      (
        r,
        wrote 0 (some buffer_full),
        record {
          stepped = ap put_reply ((write-contents (x ∷ b) v).1 lt);
          valid = v;
          same_size = refl;
          follows =
              queue_put_full (size r) (contents r) (x ∷ b) (omega arith)
                (omega (arith, length-contents v));
        },
      )
  | inr h ↦
      let le : length (x ∷ b) ≤ free r = ground arith in
      let (r', e, s) = (write-contents (x ∷ b) v).2 (omega arith) le in
      (
        r',
        wrote (length (x ∷ b)) none,
        record {
          stepped = ap put_reply e;
          valid = s.valid;
          same_size = s.same_size;
          follows =
              queue_put (size r) (contents r) (x ∷ b) (omega arith)
                (omega (arith, length-contents v))
              ∙ ap (λ q. (q, wrote (length (x ∷ b)) none)) (sym s.appended);
        },
      )
]

queue_get :
    (cap : ℕ) (q : List ℕ) (n : ℕ)
    → 0 < n
    → 0 < length q
    → queue_step cap q (get n) ≡ (drop n q, got (take n q) none)
unfolding queue_step
queue_get cap q n p h = ground arith

queue_get_none :
    (cap : ℕ) (q : List ℕ) (n : ℕ) → n ≡ 0 → queue_step cap q (get n) ≡ (q, got [] none)
unfolding queue_step
queue_get_none cap q n h = ground arith

queue_get_eof :
    (cap : ℕ) (q : List ℕ) (n : ℕ)
    → 0 < n
    → length q ≡ 0
    → queue_step cap q (get n) ≡ (q, got [] (some eof))
unfolding queue_step
queue_get_eof cap q n p h = ground arith

pub drop-min : (n : ℕ) (q : List ℕ) → drop (min n (length q)) q ≡ drop n q
drop-min n q = elim (Bool-cases (leb n (length q))) [
  | inl h ↦ ap (λ k. drop k q) {x = min n (length q)} {y = n} (omega tests)
  | inr h ↦
      let lt : length q < n = ground arith in
      drop_all (min n (length q)) q (omega arith) ∙ sym (drop_all n q (omega arith))
]

get-Follows : {r : Ring} (n : ℕ) → IsValid r → (r' : Ring) × (a : Reply) × Follows r (get n) r' a
unfolding ring_step
get-Follows {r} n v = elim (Bool-cases (n == 0)) [
  | inl z ↦
      let e = (==_iff n 0).0 z in
      (
        r,
        got [] none,
        record {
          stepped = ap get_reply ((read-contents n v).0 e);
          valid = v;
          same_size = refl;
          follows = queue_get_none (size r) (contents r) n e;
        },
      )
  | inr z ↦ elim (Bool-cases (buffered r == 0)) [
    | inl y ↦
        let e = (==_iff (buffered r) 0).0 y in
        (
          r,
          got [] (some eof),
          record {
            stepped = ap get_reply ((read-contents n v).1 (ground arith) e);
            valid = v;
            same_size = refl;
            follows =
                queue_get_eof (size r) (contents r) n (ground arith) ((length-contents v).0 ∙ e);
          },
        )
    | inr y ↦
        let (r', e, d) = (read-contents n v).2 (ground arith) (ground arith) in
        (
          r',
          got (take n (contents r)) none,
          record {
            stepped = ap get_reply e;
            valid = d.valid;
            same_size = d.same_size;
            follows =
                queue_get (size r) (contents r) n (ground arith)
                  (ground (arith, (length-contents v).0))
                ∙ ap (λ q. (q, got (take n (contents r)) none))
                    (sym (
                      d.dropped
                      ∙ ap (λ k. drop (min n k) (contents r)) (sym (length-contents v).0)
                      ∙ drop-min n (contents r)));
          },
        )
  ]
]

queue_skip :
    (cap : ℕ) (q : List ℕ) (n : ℕ)
    → (n ≡ 0 → queue_step cap q (skip n) ≡ (q, skipped (some invalid_discard)))
      × (length q < n → queue_step cap q (skip n) ≡ (q, skipped (some discard_exceeds)))
      × (0 < n → n ≤ length q → queue_step cap q (skip n) ≡ (drop n q, skipped none))
unfolding queue_step
queue_skip cap q n = ((λ h. ground arith), (λ h. ground arith), λ p h. ground arith)

skip_reply : Ring × Option Error → Ran (Ring × Reply)
skip_reply (r, e) = ran (r, skipped e)

skip-Follows : {r : Ring} (n : ℕ) → IsValid r → (r' : Ring) × (a : Reply) × Follows r (skip n) r' a
unfolding ring_step skip_reply
skip-Follows {r} n v = elim (Bool-cases (n == 0)) [
  | inl z ↦
      let e = (==_iff n 0).0 z in
      (
        r,
        skipped (some invalid_discard),
        record {
          stepped = ap skip_reply ((read_discard-contents n v).0 e);
          valid = v;
          same_size = refl;
          follows = (queue_skip (size r) (contents r) n).0 e;
        },
      )
  | inr z ↦ elim (Bool-cases (ltb (buffered r) n)) [
    | inl y ↦
        let lt = ltb→lt (buffered r) n y in
        (
          r,
          skipped (some discard_exceeds),
          record {
            stepped = ap skip_reply ((read_discard-contents n v).1 lt);
            valid = v;
            same_size = refl;
            follows = (queue_skip (size r) (contents r) n).1 (omega (arith, (length-contents v).0));
          },
        )
    | inr y ↦
        let le : n ≤ buffered r = ground arith in
        let (r', e, d) = (read_discard-contents n v).2 (ground arith) le in
        (
          r',
          skipped none,
          record {
            stepped = ap skip_reply e;
            valid = d.valid;
            same_size = d.same_size;
            follows =
                (queue_skip (size r) (contents r) n).2 (ground arith)
                  (omega (arith, (length-contents v).0))
                ∙ ap (λ q. (q, skipped none)) (sym d.dropped);
          },
        )
  ]
]

clear-Follows : {r : Ring} → IsValid r → (r' : Ring) × (a : Reply) × Follows r clear r' a
unfolding ring_step reset queue_step contents size
clear-Follows {r} v = (
  record r { off = 0; stop = 0 },
  cleared,
  record {
    stepped = refl;
    valid = record { off_in = omega arith; stop_in = omega arith };
    same_size = refl;
    follows = refl;
  },
)

step-Follows : {r : Ring} (op : Op) → IsValid r → (r' : Ring) × (a : Reply) × Follows r op r' a
step-Follows (put b) v = put-Follows b v
step-Follows (get n) v = get-Follows n v
step-Follows (skip n) v = skip-Follows n v
step-Follows clear v = clear-Follows v

-- No sequence of writes, reads, discards and resets panics on a valid ring, and its replies, the
-- bytes and the errors, are those of a queue of bytes with the ring's size as its bound.
pub ring_run_refines :
    (ops : List Op) {r : Ring}
    → IsValid r
    → ring_run r ops ≡ ran (queue_run (size r) (contents r) ops)
unfolding ring_run queue_run
ring_run_refines [] v = refl
ring_run_refines (op ∷ ops) {r} v =
    let (r', a, f) = step-Follows op v in
    ap (and_then (λ s. ring_run s ops)) f.stepped
    ∙ ap (push_reply a)
        (ring_run_refines ops f.valid ∙ ap (λ k. ran (queue_run k (contents r') ops)) f.same_size)
    ∙ ap (λ (s : List ℕ × Reply). ran (s.1 ∷ queue_run (size r) s.0 ops)) (sym f.follows)
