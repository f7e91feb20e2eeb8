-- ===== src/Tcp/Control/Sending.antt =====
-- tcp/control.go: which segments PendingSegment builds, and what Send does with them.
use lneto.Base.{
  ℕ, ◌+◌, ◌-◌, ◌%◌, ◌^◌, ◌≤◌, ◌<◌, ◌≡◌, refl, sym, subst, ◌≢◌, ◌⊎◌, inl, inr, Bool, true, false,
  Option, none, some, arith, ltb, ◌==◌, if◌then◌else◌, Bool-cases, Option-cases, ran, panicked,
}
use lneto.Tcp.Value.{sizeof}
use lneto.Tcp.Segment.{
  Error, Flags, flag_fin, flag_syn, flag_ack, has_any, State, closed, listen, syn_rcvd, syn_sent,
  established, fin_wait1, fin_wait2, closing, time_wait, close_wait, last_ack, tx_queued_data_open,
  Segment,
}
use lneto.Tcp.Control.Block.{
  SendSpace, ControlBlock, in_flight, max_send, prepare_to_handshake, trigger_challenge_ack_sent,
  pending_challenge_ack, has_pending_retransmit, close_in, close_block,
}
use lneto.Tcp.Control.Send.{
  validate_outgoing, send_in, advance_pending, satisfy_challenge, advance_next, send_valid, send,
  build_pending, plain_pending, pending_segment,
}

max_send-le : (snd : SendSpace) → max_send snd ≤ snd.wnd
unfolding max_send
max_send-le snd = ground arith

plain_pending_runs : (tcb : ControlBlock) (n : ℕ) → plain_pending tcb n ≢ panicked
unfolding plain_pending
plain_pending_runs tcb n = ground (arith, max_send-le tcb.snd)

-- `PendingSegment` never reaches its `panic("seqs: bad calculation")`.
pub pending_segment-ne-panicked : (tcb : ControlBlock) (n : ℕ) → pending_segment tcb n ≢ panicked
unfolding pending_segment
pending_segment-ne-panicked tcb n = ground (arith, plain_pending_runs tcb n)

build_pending_datalen :
    (tcb : ControlBlock) (n : ℕ)
    → ((build_pending tcb n).datalen ≤ n)
      × (0 < tcb.snd.mss → (build_pending tcb n).datalen ≤ tcb.snd.mss)
      × (tx_queued_data_open tcb.state ≡ false → (build_pending tcb n).datalen ≡ 0)
unfolding build_pending
build_pending_datalen tcb n = ground arith

-- What the send window has left, when it has something left: with the bytes in flight it is the
-- window.
max_send_left :
    (snd : SendSpace)
    → 0 < max_send snd
    → (snd.nxt + 2 ^ 32 - snd.una) % 2 ^ 32 + max_send snd ≤ snd.wnd
unfolding max_send in_flight sizeof
max_send_left snd h = ground arith

plain_pending_datalen :
    (tcb : ControlBlock) (n : ℕ) {seg : Segment}
    → plain_pending tcb n ≡ ran (some seg)
    → (seg.datalen ≤ n)
      × (seg.datalen ≤ max_send tcb.snd)
      × (0 < tcb.snd.mss → seg.datalen ≤ tcb.snd.mss)
      × (tx_queued_data_open tcb.state ≡ false → seg.datalen ≡ 0)
unfolding plain_pending
plain_pending_datalen tcb n h = elim (Bool-cases (tx_queued_data_open tcb.state)) [
  | inl y ↦
      ground (arith, build_pending_datalen tcb n, build_pending_datalen tcb (max_send tcb.snd))
  | inr y ↦
      ground (arith, build_pending_datalen tcb 0, build_pending_datalen tcb (max_send tcb.snd))
]

-- Outside a challenge ACK and a fast retransmission, the payload of the segment that
-- `PendingSegment` builds is at most what was asked for and the remote MSS (once it is known); when
-- there is a payload, it and the bytes in flight, snd.NXT - snd.UNA modulo 2^32, fit in snd.WND; and
-- there is none in a state that may not send data.
pub pending_segment_bounds :
    (tcb : ControlBlock) (n : ℕ) {seg : Segment}
    → pending_challenge_ack tcb ≡ false
    → has_pending_retransmit tcb ≡ false
    → pending_segment tcb n ≡ ran (some seg)
    → (seg.datalen ≤ n)
      × ((seg.datalen ≡ 0)
          ⊎ ((tcb.snd.nxt + 2 ^ 32 - tcb.snd.una) % 2 ^ 32 + seg.datalen ≤ tcb.snd.wnd))
      × (0 < tcb.snd.mss → seg.datalen ≤ tcb.snd.mss)
      × (tx_queued_data_open tcb.state ≡ false → seg.datalen ≡ 0)
unfolding pending_segment
pending_segment_bounds tcb n {seg} c r h =
    let (asked, left, capped, open_state) =
      plain_pending_datalen tcb n {seg = seg} (ground arith) in
    (
      asked,
      elim (Bool-cases (ltb 0 (max_send tcb.snd))) [
        | inl y ↦ let fits = max_send_left tcb.snd (ground arith) in inr (omega arith)
        | inr y ↦ inl (ground arith)
      ],
      capped,
      open_state,
    )

-- Where a segment that is sent with these flags moves the connection. All edges but `snd_ack` are
-- those of RFC 9293 §3.3.2; in CLOSING the RFC waits for the acknowledgement of the FIN. A state is
-- kept only when no edge leaves it with these flags.
pub data Drives (f : Flags) : State → State → Type 0 where
  snd_syn : f ≡ flag_syn → Drives f closed syn_sent
  snd_fin_early : has_any f flag_fin ≡ true → Drives f syn_rcvd fin_wait1
  snd_fin : has_any f flag_fin ≡ true → Drives f established fin_wait1
  snd_fin_last : has_any f flag_fin ≡ true → Drives f close_wait last_ack
  snd_ack : has_any f flag_ack ≡ true → Drives f closing time_wait
  stay_closed : f ≢ flag_syn → Drives f closed closed
  stay_open :
      {s : State}
      → (s ≡ syn_rcvd) ⊎ (s ≡ established) ⊎ (s ≡ close_wait)
      → has_any f flag_fin ≡ false
      → Drives f s s
  stay_closing : has_any f flag_ack ≡ false → Drives f closing closing
  stay_other :
      {s : State}
      → (s ≡ listen)
        ⊎ (s ≡ syn_sent)
        ⊎ (s ≡ fin_wait1)
        ⊎ (s ≡ fin_wait2)
        ⊎ (s ≡ last_ack)
        ⊎ (s ≡ time_wait)
      → Drives f s s

-- What `Send` leaves: a refused segment changes nothing; another one moves the state as its flags
-- say, and its window is the one that is announced.
pub data SendOutcome (tcb : ControlBlock) (seg : Segment)
    : ControlBlock × Option Error → Type 0 where
  sent_segment :
      (t : ControlBlock)
      → Drives seg.flags tcb.state t.state
      → t.rcv.wnd ≡ seg.wnd
      → SendOutcome tcb seg (t, none)
  refused_segment : (e : Error) → SendOutcome tcb seg (tcb, some e)

send_valid_state :
    (tcb : ControlBlock) (seg : Segment)
    → (send_valid tcb seg).state ≡ (send_in tcb.state tcb seg).state
unfolding send_valid advance_pending satisfy_challenge advance_next trigger_challenge_ack_sent
send_valid_state tcb seg = ground arith

-- An edge when the test holds, and the state kept otherwise.
Drives-if :
    (f : Flags) (s : State) (b : Bool) (t u : ControlBlock)
    → (b ≡ true → Drives f s t.state)
    → (b ≡ false → Drives f s u.state)
    → Drives f s (if b then t else u).state
Drives-if f s true t u p q = p refl
Drives-if f s false t u p q = q refl

send_in-Drives :
    (s : State) (tcb : ControlBlock) (seg : Segment)
    → tcb.state ≡ s
    → Drives seg.flags s (send_in s tcb seg).state
unfolding send_in prepare_to_handshake
send_in-Drives closed tcb seg h =
    Drives-if seg.flags closed (seg.flags == flag_syn) _ tcb (λ e. snd_syn (ground arith))
      (λ e. subst (Drives seg.flags closed) (sym h) (stay_closed (λ w. ground arith)))
send_in-Drives syn_rcvd tcb seg h =
    Drives-if seg.flags syn_rcvd (has_any seg.flags flag_fin) _ tcb (λ e. snd_fin_early e)
      (λ e. subst (Drives seg.flags syn_rcvd) (sym h) (stay_open (inl refl) e))
send_in-Drives established tcb seg h =
    Drives-if seg.flags established (has_any seg.flags flag_fin) _ tcb (λ e. snd_fin e)
      (λ e. subst (Drives seg.flags established) (sym h) (stay_open (inr (inl refl)) e))
send_in-Drives close_wait tcb seg h =
    Drives-if seg.flags close_wait (has_any seg.flags flag_fin) _ tcb (λ e. snd_fin_last e)
      (λ e. subst (Drives seg.flags close_wait) (sym h) (stay_open (inr (inr refl)) e))
send_in-Drives closing tcb seg h =
    Drives-if seg.flags closing (has_any seg.flags flag_ack) _ tcb (λ e. snd_ack e)
      (λ e. subst (Drives seg.flags closing) (sym h) (stay_closing e))
send_in-Drives listen tcb seg h = subst (Drives seg.flags listen) (sym h) (stay_other (inl refl))
send_in-Drives syn_sent tcb seg h =
    subst (Drives seg.flags syn_sent) (sym h) (stay_other (inr (inl refl)))
send_in-Drives fin_wait1 tcb seg h =
    subst (Drives seg.flags fin_wait1) (sym h) (stay_other (inr (inr (inl refl))))
send_in-Drives fin_wait2 tcb seg h =
    subst (Drives seg.flags fin_wait2) (sym h) (stay_other (inr (inr (inr (inl refl)))))
send_in-Drives last_ack tcb seg h =
    subst (Drives seg.flags last_ack) (sym h) (stay_other (inr (inr (inr (inr (inl refl))))))
send_in-Drives time_wait tcb seg h =
    subst (Drives seg.flags time_wait) (sym h) (stay_other (inr (inr (inr (inr (inr (refl)))))))

-- `Send` of any segment in any state: a refused segment leaves the whole block alone, and with an
-- accepted one the state moves exactly as `Drives` says of the flags of the segment, and rcv.WND is
-- the segment's.
pub send-SendOutcome : (tcb : ControlBlock) (seg : Segment) → SendOutcome tcb seg (send tcb seg)
unfolding send send_valid
send-SendOutcome tcb seg = elim (Option-cases (validate_outgoing tcb seg)) [
  | inl n ↦
      rw (n, send)
        (sent_segment (send_valid tcb seg)
          (subst (Drives seg.flags tcb.state) (sym (send_valid_state tcb seg))
            (send_in-Drives tcb.state tcb seg refl))
          refl)
  | inr (e, y) ↦ rw (y, send) (refused_segment e)
]

-- Where a CLOSE call moves the connection at once: the edges of RFC 9293 §3.3.2 that delete the
-- block. From CLOSE-WAIT the code enters LAST-ACK with the call already, before the FIN is sent.
infix 40 ◌⇢◌
pub data ◌⇢◌ : State → State → Type 0 where
  stay : {s : State} → s ⇢ s
  close_listen : listen ⇢ closed
  close_syn_sent : syn_sent ⇢ closed
  close_last : close_wait ⇢ last_ack

ruleset local_edges = (stay, close_listen, close_syn_sent, close_last)

close_in-⇢ :
    (s : State) (tcb : ControlBlock)
    → tcb.state ≡ s
    → (s ⇢ (close_in s tcb).0.state) × ((close_in s tcb).1 ≢ none → (close_in s tcb).0 ≡ tcb)
unfolding close_in
close_in-⇢ closed tcb h = grind (arith, local_edges)
close_in-⇢ _ tcb h = grind (arith, local_edges)

-- `Close` moves the connection along a local edge or not at all, and it changes nothing when it
-- returns an error.
pub close_block-⇢ :
    (tcb : ControlBlock)
    → (tcb.state ⇢ (close_block tcb).0.state)
      × ((close_block tcb).1 ≢ none → (close_block tcb).0 ≡ tcb)
unfolding close_block
close_block-⇢ tcb = close_in-⇢ tcb.state tcb refl
