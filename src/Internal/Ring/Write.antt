-- ===== src/Internal/Ring/Write.antt =====
-- internal/ring.go: Write appends to the readable bytes.
use lneto.Base.{
  ℕ, ◌+◌, ◌-◌, ◌≤◌, ◌<◌, min, ◌≡◌, refl, sym, ap, ap₂, ◌∙◌, ◌≢◌, inl, inr, true, false, none, some,
  List, [], ◌++◌, arith, ltb, ◌==◌, if◌then◌else◌, Bool-cases, ==_iff, tests, length, take, drop,
  length-drop, drop-append, drop-drop, take_all, take_at, drop_at, write_at, rotate, rotate_step,
  rotate_wrap, ran,
}
use lneto.Internal.Ring.{
  buffer_full, empty_write, Ring, size, is_full, free, mid_free, write_tail, write,
}
use lneto.Internal.Ring.Line.{
  IsValid, line, contents, line_stop, line_off, free-le, contents_lem, length-line,
}
use lneto.Internal.Ring.Round.{
  round_copy, round_copy_fits, rotate-round_copy_after, length-round_copy,
}

-- Where the line begins, before an index at the end of the buffer is taken for 0.
abbrev pub turn : Ring → ℕ
turn r = if r.stop == 0 then r.off else r.stop

pub line-turn : (r : Ring) → line r ≡ rotate (turn r) r.buf
line-turn r = elim (Bool-cases (r.stop == 0)) [
  | inl e ↦ rw e (line_off r ((==_iff r.stop 0).0 e))
  | inr n ↦ rw n (line_stop r (ground arith))
]

pub turn_le : {r : Ring} → IsValid r → turn r ≤ length r.buf
turn_le {r} v = ground arith

-- `n` steps on from an index, round the end of the buffer.
abbrev pub advance : ℕ → ℕ → ℕ → ℕ
advance len at n = if ltb len (at + n) then at + n - len else at + n

pub advance_le :
    (len at n : ℕ) → at ≤ len → 0 < n → n ≤ len → (advance len at n ≤ len) × (advance len at n ≢ 0)
advance_le len at n h p q = ground arith

-- With `End` moved `n` steps on over a buffer, its first `n` bytes seen from there are readable.
pub line_advanced :
    (buf : List ℕ) (off t n len : ℕ)
    → len ≡ length buf
    → t ≤ len
    → 0 < n
    → n ≤ len
    → line (record { buf = buf; off = off; stop = advance len t n })
      ≡ drop n (rotate t buf) ++ take n (rotate t buf)
line_advanced buf off t n len e ht p q =
    line_stop (record { buf = buf; off = off; stop = advance len t n })
      (advance_le len t n ht p q).1
    ∙ elim (Bool-cases (ltb len (t + n))) [
      | inl h ↦ rw h (rotate_wrap t n (t + n - len) buf (omega arith) (omega arith) (omega tests))
      | inr h ↦ rw h (rotate_step t n buf (ground arith))
    ]

pub free_advanced :
    {r : Ring} (buf' : List ℕ) (n : ℕ)
    → IsValid r
    → length buf' ≡ length r.buf
    → 0 < n
    → n ≤ free r
    → free (record r { buf = buf'; stop = advance (length r.buf) (turn r) n }) + n ≡ free r
unfolding free size
free_advanced {r} buf' n v e p q = ground arith

-- A line that grew by `b` at its end means that `b` was appended to the readable bytes.
pub contents_grown :
    {r r' : Ring} (b : List ℕ)
    → IsValid r
    → IsValid r'
    → line r' ≡ drop (length b) (line r) ++ b
    → free r' + length b ≡ free r
    → contents r' ≡ contents r ++ b
contents_grown {r} {r'} b v v' l f =
    let d = length (drop (length b) (line r)) in
    let dl : d + length b ≡ length (line r) =
      omega (arith, length-drop (length b) (line r), length-line v, free-le v) in
    sym (contents_lem v')
    ∙ ap (drop (free r')) l
    ∙ drop-append (free r') (drop (length b) (line r)) b
    ∙ ap₂ ◌++◌
        (drop-drop (free r') (length b) (line r)
          ∙ ap (λ n. drop n (line r)) {x = length b + free r'} {y = free r} (omega arith)
          ∙ contents_lem v)
        (ap (λ n. drop n b) {x = free r' - d} {y = 0} (omega (arith, length-line v, free-le v)))

write_tail_lem :
    (r : Ring) (b : List ℕ)
    → r.stop ≤ length r.buf
    → 0 < length b
    → length b ≤ length r.buf
    → write_tail r b
      ≡ ran (
        record r {
          buf = round_copy r.buf r.stop b;
          stop = advance (length r.buf) r.stop (length b);
        },
        length b,
        none,
      )
unfolding write_tail round_copy
write_tail_lem r b h p q =
    ground (arith, length-drop (min (length r.buf - r.stop) (length b)) b, take_all (length b) b)

-- The ring after a write that is accepted.
abbrev pub written : Ring → List ℕ → Ring
written r b = record r {
  buf = round_copy r.buf (turn r) b;
  stop = advance (length r.buf) (turn r) (length b);
}

write_mid :
    {r : Ring} (b : List ℕ)
    → IsValid r
    → 0 < length b
    → length b ≤ free r
    → ltb 0 (mid_free r) ≡ true
    → write r b ≡ ran (written r b, length b, none)
unfolding write mid_free is_full free size
write_mid {r} b v p q m = ground (arith, take_all (length b) b, round_copy_fits r.buf r.stop b)

not_full : {r : Ring} → IsValid r → 0 < free r → is_full r ≡ false
unfolding is_full free size
not_full {r} v h = ground arith

write_end :
    {r : Ring} (b : List ℕ)
    → IsValid r
    → 0 < length b
    → length b ≤ free r
    → ltb 0 (mid_free r) ≡ false
    → write r b ≡ ran (written r b, length b, none)
unfolding write
write_end {r} b v p q m = elim (Bool-cases (r.stop == 0)) [
  | inl e ↦ ground (arith, not_full v, write_tail_lem (record r { stop = r.off }) b, free-le v)
  | inr n ↦ ground (arith, not_full v, write_tail_lem r b, free-le v)
]

-- `Write` of bytes that fit returns their number.
pub write_ok :
    {r : Ring} (b : List ℕ)
    → IsValid r
    → 0 < length b
    → length b ≤ free r
    → write r b ≡ ran (written r b, length b, none)
write_ok {r} b v p q = elim (Bool-cases (ltb 0 (mid_free r))) [
  | inl m ↦ write_mid b v p q m
  | inr m ↦ write_end b v p q m
]

written-IsValid :
    {r : Ring} (b : List ℕ) → IsValid r → 0 < length b → length b ≤ free r → IsValid (written r b)
written-IsValid {r} b v p q = ground (
  arith,
  length-round_copy r.buf (turn r) b,
  free-le v,
  turn_le v,
  advance_le (length r.buf) (turn r) (length b),
)

line-written :
    {r : Ring} (b : List ℕ)
    → IsValid r
    → 0 < length b
    → length b ≤ free r
    → line (written r b) ≡ drop (length b) (line r) ++ b
unfolding write_at
line-written {r} b v p q =
    let buf' = round_copy r.buf (turn r) b in
    let seen : rotate (turn r) buf' ≡ b ++ drop (length b) (line r) =
      rotate-round_copy_after (turn r) 0 (turn r) r.buf b (omega arith) (turn_le v)
        (omega (arith, free-le v))
      ∙ ap (λ n. b ++ drop n (rotate (turn r) r.buf)) {x = 0 + length b} {y = length b}
          (omega arith)
      ∙ ap (λ l. b ++ drop (length b) l) (sym (line-turn r)) in
    line_advanced buf' r.off (turn r) (length b) (length r.buf)
      (sym (length-round_copy r.buf (turn r) b (turn_le v) (omega (arith, free-le v)))) (turn_le v)
      p (omega (arith, free-le v))
    ∙ ap (λ l. drop (length b) l ++ take (length b) l) seen
    ∙ ap₂ ◌++◌ (drop_at b (drop (length b) (line r)) refl)
        (take_at b (drop (length b) (line r)) refl)

-- What a write that is taken does to a ring.
pub record Appended (r : Ring) (b : List ℕ) (r' : Ring) : Type 0 where
  pub valid : IsValid r'
  pub appended : contents r' ≡ contents r ++ b
  pub free_less : free r' + length b ≡ free r
  pub same_size : size r' ≡ size r
  pub same_off : r'.off ≡ r.off
  pub line_moved : line r' ≡ drop (length b) (line r) ++ b

pub written-Appended :
    {r : Ring} (b : List ℕ)
    → IsValid r
    → 0 < length b
    → length b ≤ free r
    → Appended r b (written r b)
unfolding size
written-Appended {r} b v p q =
    let same = length-round_copy r.buf (turn r) b (turn_le v) (omega (arith, free-le v)) in
    let f = free_advanced (round_copy r.buf (turn r) b) (length b) v same p q in
    record {
      valid = written-IsValid b v p q;
      appended = contents_grown b v (written-IsValid b v p q) (line-written b v p q) f;
      free_less = f;
      same_size = same;
      same_off = refl;
      line_moved = line-written b v p q;
    }

pub write_empty : (r : Ring) → write r [] ≡ ran (r, 0, some empty_write)
unfolding write
write_empty r = refl

pub write_over :
    {r : Ring} (b : List ℕ) → free r < length b → write r b ≡ ran (r, 0, some buffer_full)
unfolding write
write_over {r} b h = ground arith

-- On a valid ring `Write` never panics: without bytes it fails with the error for an empty write,
-- with more bytes than are free it fails as full, and both change nothing; otherwise it takes all
-- bytes, and the new ring is valid, holds the old bytes followed by the new ones, has that much less
-- space, and keeps its size and its read position.
pub write-contents :
    {r : Ring} (b : List ℕ)
    → IsValid r
    → (b ≡ [] → write r b ≡ ran (r, 0, some empty_write))
      × (free r < length b → write r b ≡ ran (r, 0, some buffer_full))
      × (0 < length b
          → length b ≤ free r
          → (r' : Ring) × (write r b ≡ ran (r', length b, none)) × Appended r b r')
write-contents {r} b v = (
  (λ e. rw e (write_empty r)),
  write_over b,
  λ p q. (written r b, write_ok b v p q, written-Appended b v p q),
)
