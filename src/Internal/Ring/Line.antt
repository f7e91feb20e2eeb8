-- ===== src/Internal/Ring/Line.antt =====
-- internal/ring.go: what a ring holds. Turned round at the place of the next write, its buffer is
-- the free bytes followed by the readable bytes.
use lneto.Base.{
  ℕ, ◌+◌, ◌-◌, ◌≤◌, ◌<◌, ◌≡◌, refl, sym, ap, ap₂, ◌∙◌, ◌≢◌, inl, inr, List, [], ◌++◌, arith, ltb,
  ◌==◌, if◌then◌else◌, Bool-cases, ==_iff, ltb→lt, length, take, drop, take-append-drop,
  length-drop, drop-append, drop-drop, drop_all, drop_past, rotate, length-rotate, rotate_all,
}
use lneto.Internal.Ring.{Ring, size, free, buffered, write_start}

pub record IsValid (r : Ring) : Type 0 where
  pub off_in : r.off ≤ length r.buf
  pub stop_in : r.stop ≤ length r.buf

-- The buffer from the place of the next write on.
unfoldable pub line : Ring → List ℕ
line r = rotate (write_start r) r.buf

-- The readable bytes, in the order in which they were written.
unfoldable pub contents : Ring → List ℕ
contents r =
    if r.stop == 0
    then []
    else if ltb r.off r.stop
    then drop r.off (take r.stop r.buf)
    else drop r.off r.buf ++ take r.stop r.buf

pub line_stop : (r : Ring) → r.stop ≢ 0 → line r ≡ rotate r.stop r.buf
unfolding line write_start size
line_stop r h = ground (arith, rotate_all r.buf)

pub line_off : (r : Ring) → r.stop ≡ 0 → line r ≡ rotate r.off r.buf
unfolding line write_start
line_off r h = rw h refl

pub free_empty : (r : Ring) → r.stop ≡ 0 → free r ≡ length r.buf
unfolding free size
free_empty r h = ground arith

pub free_ahead : (r : Ring) → r.off < r.stop → free r ≡ r.off + (length r.buf - r.stop)
unfolding free size
free_ahead r h = ground arith

pub free_round : (r : Ring) → r.stop ≢ 0 → r.stop ≤ r.off → free r ≡ r.off - r.stop
unfolding free size
free_round r h k = ground arith

pub free-le : {r : Ring} → IsValid r → free r ≤ length r.buf
unfolding free size
free-le {r} v = ground arith

contents_ahead : (r : Ring) → r.off < r.stop → contents r ≡ drop r.off (take r.stop r.buf)
unfolding contents
contents_ahead r h = ground arith

contents_round :
    (r : Ring) → r.stop ≢ 0 → r.stop ≤ r.off → contents r ≡ drop r.off r.buf ++ take r.stop r.buf
unfolding contents
contents_round r h k = ground arith

contents_empty : (r : Ring) → r.stop ≡ 0 → contents r ≡ []
unfolding contents
contents_empty r h = rw h refl

line_ahead : {r : Ring} → IsValid r → r.off < r.stop → drop (free r) (line r) ≡ contents r
unfolding rotate
line_ahead {r} v h =
    ap (drop (free r)) (line_stop r (omega arith))
    ∙ drop_past {n = free r} r.off (drop r.stop r.buf) (take r.stop r.buf)
        (omega (arith, free_ahead r h, length-drop r.stop r.buf))
    ∙ sym (contents_ahead r h)

line_round :
    {r : Ring} → IsValid r → r.stop ≢ 0 → r.stop ≤ r.off → drop (free r) (line r) ≡ contents r
unfolding rotate
line_round {r} v h k =
    ap₂ drop (free_round r h k) (line_stop r h)
    ∙ drop-append (r.off - r.stop) (drop r.stop r.buf) (take r.stop r.buf)
    ∙ ap₂ ◌++◌
        (drop-drop (r.off - r.stop) r.stop r.buf
          ∙ ap (λ n. drop n r.buf) {x = r.stop + (r.off - r.stop)} {y = r.off} (omega arith))
        (ap (λ n. drop n (take r.stop r.buf)) {x = (r.off - r.stop) - length (drop r.stop r.buf)}
          {y = 0} (omega (arith, length-drop r.stop r.buf)))
    ∙ sym (contents_round r h k)

line_empty : {r : Ring} → IsValid r → r.stop ≡ 0 → drop (free r) (line r) ≡ contents r
line_empty {r} v h =
    drop_all (free r) (line r)
      (omega (arith, free_empty r h, ap length (line_off r h), length-rotate r.off r.buf v.off_in))
    ∙ sym (contents_empty r h)

-- The readable bytes are the end of the line, behind the free bytes.
pub contents_lem : {r : Ring} → IsValid r → drop (free r) (line r) ≡ contents r
contents_lem {r} v = elim (Bool-cases (r.stop == 0)) [
  | inl e ↦ line_empty v ((==_iff r.stop 0).0 e)
  | inr n ↦ elim (Bool-cases (ltb r.off r.stop)) [
    | inl h ↦ line_ahead v (ltb→lt r.off r.stop h)
    | inr h ↦ line_round v (ground arith) (ground arith)
  ]
]

pub length-line : {r : Ring} → IsValid r → length (line r) ≡ length r.buf
length-line {r} v = elim (Bool-cases (r.stop == 0)) [
  | inl e ↦ ap length (line_off r ((==_iff r.stop 0).0 e)) ∙ length-rotate r.off r.buf v.off_in
  | inr n ↦ ap length (line_stop r (ground arith)) ∙ length-rotate r.stop r.buf v.stop_in
]

-- `Buffered` is the number of readable bytes, and with `Free` it makes up the size.
pub length-contents :
    {r : Ring} → IsValid r → (length (contents r) ≡ buffered r) × (buffered r + free r ≡ size r)
unfolding buffered size
length-contents {r} v =
    let e = ap length (contents_lem v) in
    (omega (arith, length-drop (free r) (line r), length-line v), omega (arith, free-le v))

-- The bytes of the free region, in the order in which they will be written over.
abbrev pub spare : Ring → List ℕ
spare r = take (free r) (line r)

pub line_parts : {r : Ring} → IsValid r → line r ≡ spare r ++ contents r
line_parts {r} v =
    sym (take-append-drop (free r) (line r)) ∙ ap (λ l. spare r ++ l) (contents_lem v)
