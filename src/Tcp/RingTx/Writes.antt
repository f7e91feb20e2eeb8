-- ===== src/Tcp/RingTx/Writes.antt =====
-- tcp/txqueue.go: Write puts bytes behind those not sent, and never over those sent.
use lneto.Base.{
  ℕ, ◌-◌, ◌≤◌, ◌<◌, ◌≡◌, refl, sym, ap, ◌∙◌, subst, ◌⊎◌, inl, inr, true, false, none, some, List,
  [], ◌++◌, append_assoc, arith, ltb, ◌==◌, Bool-cases, length, drop, length-drop, drop-append, ran,
}
use lneto.Internal.Ring.{Ring, free_limited, write_limited}
use lneto.Internal.Ring.Write.{write_empty, write_over, write_ok, written, written-Appended}
use lneto.Tcp.Sentlist.{newest, continues}
use lneto.Tcp.RingTx.{RingTx}
use lneto.Tcp.RingTx.Regions.{unsent_of, Reaches, Holds, total_size, free_limited_lem}
use lneto.Internal.Ring
use lneto.Tcp.RingTx

drop_within : (n : ℕ) (a x : List ℕ) → n ≤ length a → drop n (a ++ x) ≡ drop n a ++ x
drop_within n a x h =
    drop-append n a x ∙ ap (λ k. drop n a ++ drop k x) {x = n - length a} {y = 0} (omega arith)

-- What a write that is taken gives.
abbrev grown : RingTx → List ℕ → RingTx
grown rtx b = record rtx {
  rawbuf = (written (unsent_of rtx) b).buf;
  unsentend = (written (unsent_of rtx) b).stop;
}

ring_written :
    (rtx : RingTx) (b : List ℕ) {sent unsent spare : List ℕ}
    → Holds rtx sent unsent spare
    → 0 < length b
    → length b ≤ length spare
    → RingTx.write rtx b ≡ ran (grown rtx b, length b, none)
unfolding RingTx.write write_limited Ring.size
ring_written rtx b {sent} {unsent} {spare} h p q =
    let w = write_ok b h.valid p (omega (arith, h.room)) in
    elim (Bool-cases (rtx.sentend == 0)) [
      | inl e ↦ rw (e, w) refl
      | inr n ↦
          let m : 0 < length sent = ground (arith, h.sent_none) in
          let (l, o) = h.sent_at m in
          let f =
            free_limited_lem rtx.sentoff (length sent) h.valid m (omega (arith, h.room)) (l, o) in
          let g : ltb (length rtx.rawbuf) rtx.sentoff ≡ false = ground arith in
          let g2 : ltb (length rtx.rawbuf) (length b) ≡ false = ground (arith, total_size h) in
          let g3 : ltb (free_limited (unsent_of rtx) rtx.sentoff) (length b) ≡ false =
            ground (arith, f, h.room) in
          rw (n, g, g2, g3, w) refl
    ]

grown-Holds :
    (rtx : RingTx) (b : List ℕ) {sent unsent spare : List ℕ}
    → Holds rtx sent unsent spare
    → 0 < length b
    → length b ≤ length spare
    → Holds (grown rtx b) sent (unsent ++ b) (drop (length b) spare)
unfolding Ring.size
grown-Holds rtx b {sent} {unsent} {spare} h p q =
    let a = written-Appended b h.valid p (omega (arith, h.room)) in
    record {
      valid = a.valid;
      layout =
          a.line_moved
          ∙ ap (λ l. drop (length b) l ++ b) h.layout
          ∙ ap (λ l. l ++ b) (drop_within (length b) spare (sent ++ unsent) q)
          ∙ append_assoc (drop (length b) spare) (sent ++ unsent) b
          ∙ ap (λ l. drop (length b) spare ++ l) (append_assoc sent unsent b);
      room = omega (arith, a.free_less, h.room, length-drop (length b) spare);
      sent_none = h.sent_none;
      sent_at = λ m.
          subst (Reaches rtx.sentoff (length sent) rtx.unsentoff) (sym a.same_size) (h.sent_at m);
      last_sent =
          subst (λ k. continues (newest rtx.slist.pkts) rtx.unsentoff k ≡ true) (sym a.same_size)
            h.last_sent;
    }

write_refused :
    (r : Ring) (b : List ℕ)
    → (b ≡ []) ⊎ (Ring.free r < length b)
    → (e : Ring.Error) × (Ring.write r b ≡ ran (r, 0, some e))
write_refused r b c = elim c [
  | inl y ↦ (Ring.empty_write, rw y (write_empty r))
  | inr y ↦ (Ring.buffer_full, write_over b y)
]

limited_refused :
    (r : Ring) (b : List ℕ) (at : ℕ)
    → at ≤ length r.buf
    → (b ≡ []) ⊎ (free_limited r at < length b)
    → (e : Ring.Error) × (write_limited r b at ≡ ran (r, 0, some e))
unfolding write_limited Ring.size
limited_refused r b at h c =
    let g : ltb (length r.buf) at ≡ false = ground arith in
    elim (Bool-cases (ltb (length r.buf) (length b))) [
      | inl y ↦ (Ring.short_buffer, rw (g, y) refl)
      | inr n ↦ elim (Bool-cases (ltb (free_limited r at) (length b))) [
        | inl y ↦ (Ring.buffer_full, rw (g, n, y) refl)
        | inr z ↦
            let e : b ≡ [] = elim c [ inl y ↦ y | inr y ↦ absurd (ground arith) ] in
            (Ring.empty_write, rw (g, n, z) (ap (Ring.write r) e ∙ write_empty r))
      ]
    ]

ring_refused :
    (rtx : RingTx) (b : List ℕ) {sent unsent spare : List ℕ}
    → Holds rtx sent unsent spare
    → (b ≡ []) ⊎ (length spare < length b)
    → (e : RingTx.Error) × (RingTx.write rtx b ≡ ran (rtx, 0, some e))
unfolding RingTx.write
ring_refused rtx b {sent} {unsent} {spare} h c = elim (Bool-cases (rtx.sentend == 0)) [
  | inl e ↦
      let (err, w) =
        write_refused (unsent_of rtx) b
          (elim c [ inl y ↦ inl y | inr y ↦ inr (ground (arith, h.room, h.sent_none)) ]) in
      (RingTx.Error.ring err, rw (e, w) refl)
  | inr n ↦
      let m : 0 < length sent = ground (arith, h.sent_none) in
      let (l, o) = h.sent_at m in
      let f = free_limited_lem rtx.sentoff (length sent) h.valid m (omega (arith, h.room)) (l, o) in
      let (err, w) =
        limited_refused (unsent_of rtx) b rtx.sentoff l
          (elim c [ inl y ↦ inl y | inr y ↦ inr (omega (arith, f, h.room)) ]) in
      (RingTx.Error.ring err, rw (n, w) refl)
]

-- `Write` on a transmit ring with `sent` bytes in flight, `unsent` bytes behind them and `spare`
-- bytes free never panics. Bytes that fit into the spare ones are taken whole: they follow the unsent
-- bytes, and the bytes in flight stay as they are. No bytes, or more than fit, are an error, and
-- nothing changes.
pub write-Holds :
    (rtx : RingTx) (b : List ℕ) {sent unsent spare : List ℕ}
    → Holds rtx sent unsent spare
    → (0 < length b
        → length b ≤ length spare
        → (rtx' : RingTx) × (RingTx.write rtx b ≡ ran (rtx', length b, none))
          × Holds rtx' sent (unsent ++ b) (drop (length b) spare))
      × ((b ≡ []) ⊎ (length spare < length b)
          → (e : RingTx.Error) × (RingTx.write rtx b ≡ ran (rtx, 0, some e)))
write-Holds rtx b h = (
  (λ p q. (grown rtx b, ring_written rtx b h p q, grown-Holds rtx b h p q)),
  ring_refused rtx b h,
)
