-- ===== src/Tcp/RingTx/Regions.antt =====
-- tcp/txqueue.go: what a transmit ring holds. Seen from the place of the next write, its buffer is
-- spare bytes, then the bytes sent and not acknowledged, then the bytes not sent.
use lneto.Base.{
  ℕ, ◌+◌, ◌≤◌, ◌<◌, ◌≡◌, sym, ap, ap₂, ◌∙◌, ◌⊎◌, inl, inr, true, List, ◌++◌, append_assoc, arith,
  ◌==◌, length, drop, length-append, drop_at,
}
use lneto.Internal.Ring.{Ring, is_full, free_limited}
use lneto.Internal.Ring.Line.{IsValid, line, contents, contents_lem, length-line}
use lneto.Tcp.Sentlist.{newest, continues}
use lneto.Tcp.RingTx.{RingTx}
use lneto.Internal.Ring

-- The ring of the bytes not sent.
abbrev pub unsent_of : RingTx → Ring
unsent_of rtx = record { buf = rtx.rawbuf; off = rtx.unsentoff; stop = rtx.unsentend }

-- `m` bytes from the index `at` on, round a buffer of `len` bytes, end at the index `off`.
abbrev pub Reaches : ℕ → ℕ → ℕ → ℕ → Type 0
Reaches at m off len = (at ≤ len) × ((at + m ≡ off) ⊎ (at + m ≡ off + len))

pub record Holds (rtx : RingTx) (sent unsent spare : List ℕ) : Type 0 where
  pub valid : IsValid (unsent_of rtx)
  pub layout : line (unsent_of rtx) ≡ spare ++ (sent ++ unsent)
  pub room : Ring.free (unsent_of rtx) ≡ length spare + length sent
  pub sent_none : (rtx.sentend == 0) ≡ (length sent == 0)
  pub sent_at :
      0 < length sent → Reaches rtx.sentoff (length sent) rtx.unsentoff (length rtx.rawbuf)
  pub last_sent : continues (newest rtx.slist.pkts) rtx.unsentoff (length rtx.rawbuf) ≡ true

pub contents_unsent :
    {rtx : RingTx} {sent unsent spare : List ℕ}
    → Holds rtx sent unsent spare
    → contents (unsent_of rtx) ≡ unsent
contents_unsent {rtx} {sent} {unsent} {spare} h =
    sym (contents_lem h.valid)
    ∙ ap₂ drop h.room (h.layout ∙ sym (append_assoc spare sent unsent))
    ∙ drop_at (spare ++ sent) unsent (omega (arith, length-append spare sent))

pub total_size :
    {rtx : RingTx} {sent unsent spare : List ℕ}
    → Holds rtx sent unsent spare
    → length spare + (length sent + length unsent) ≡ length rtx.rawbuf
total_size {rtx} {sent} {unsent} {spare} h = omega (
  arith,
  ap length h.layout,
  length-append spare (sent ++ unsent),
  length-append sent unsent,
  length-line h.valid,
)

-- Up to the oldest byte sent, `FreeLimited` counts the spare bytes.
pub free_limited_lem :
    {r : Ring} (at m : ℕ)
    → IsValid r
    → 0 < m
    → m ≤ Ring.free r
    → Reaches at m r.off (length r.buf)
    → free_limited r at + m ≡ Ring.free r
unfolding free_limited is_full Ring.free Ring.size
free_limited_lem {r} at m v p q (l, e) = elim e [ inl e ↦ ground arith | inr e ↦ ground arith ]
