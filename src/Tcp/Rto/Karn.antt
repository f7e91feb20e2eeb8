-- ===== src/Tcp/Rto/Karn.antt =====
-- tcp/rto/timer.go: Karn's algorithm, over any run of the three hooks.
use lneto.Base.{
  ℕ, ◌≡◌, refl, ◌∙◌, Bool, true, false, not, ◌&&◌, ◌||◌, List, [], ◌∷◌, arith, ◌==◌, add32,
}
use lneto.Tcp.Value.{Value, less_than}
use lneto.Tcp.Segment.{Segment, seg_len}
use lneto.Tcp.Rto.{Timer, take_sample, advance_una, rearm, post_rx, pre_tx, observe_start, post_tx}
use lneto.Tcp.Rto.Expiry.{IsExpired}

-- One call of a hook with the clock's reading: `PostRx`, `PreTx`, `PostTx`.
pub data Event : Type 0 where
  received : Segment → ℕ → Event
  polled : Value → ℕ → Event
  sent : Segment → ℕ → Event

unfoldable pub event : Timer → Event → Timer
event r (received seg now) = post_rx r seg now
event r (polled una now) = (pre_tx r now una).0
event r (sent seg now) = post_tx r seg now

unfoldable pub events : Timer → List Event → Timer
events r [] = r
events r (e ∷ es) = events (event r e) es

-- The segment of a `PostTx` has no data or ends no later than what was sent before.
unfoldable pub is_resend : Timer → Event → Bool
is_resend r (sent seg now) =
    seg.datalen == 0 || (r.have_seq && not (less_than r.snd_nxt (add32 seg.seq (seg_len seg))))
is_resend r (received seg now) = true
is_resend r (polled una now) = true

pub record SameEstimate (r r' : Timer) : Type 0 where
  pub srtt : r'.srtt ≡ r.srtt
  pub rttvar : r'.rttvar ≡ r.rttvar
  pub have_rtt : r'.have_rtt ≡ r.have_rtt

-- What a timer that measures nothing keeps over resends: it measures nothing, and what was sent.
pub record Idle (r r' : Timer) : Type 0 where
  pub timing : r'.timing ≡ false
  pub have_seq : r'.have_seq ≡ r.have_seq
  pub snd_nxt : r'.snd_nxt ≡ r.snd_nxt
  pub estimate : SameEstimate r r'

event-Idle : (r : Timer) (e : Event) → r.timing ≡ false → is_resend r e ≡ true → Idle r (event r e)
unfolding event is_resend post_rx take_sample advance_una rearm pre_tx post_tx observe_start
event-Idle r (received seg now) t h = record {
  timing = ground arith;
  have_seq = ground arith;
  snd_nxt = ground arith;
  estimate = record { srtt = ground arith; rttvar = ground arith; have_rtt = ground arith };
}
event-Idle r (polled una now) t h = record {
  timing = ground arith;
  have_seq = ground arith;
  snd_nxt = ground arith;
  estimate = record { srtt = ground arith; rttvar = ground arith; have_rtt = ground arith };
}
event-Idle r (sent seg now) t h = record {
  timing = ground arith;
  have_seq = ground arith;
  snd_nxt = ground arith;
  estimate = record { srtt = ground arith; rttvar = ground arith; have_rtt = ground arith };
}

-- All events of a run are acknowledgements, polls and resends.
unfoldable pub resends : Timer → List Event → Bool
resends r [] = true
resends r (e ∷ es) = is_resend r e && resends (event r e) es

idle_events :
    (r : Timer) (es : List Event)
    → r.timing ≡ false
    → resends r es ≡ true
    → SameEstimate r (events r es)
unfolding events resends
idle_events r [] t h = record { srtt = refl; rttvar = refl; have_rtt = refl }
idle_events r (e ∷ es) t h =
    let i = event-Idle r e t (ground arith) in
    let s = idle_events (event r e) es i.timing (ground arith) in
    record {
      srtt = s.srtt ∙ i.estimate.srtt;
      rttvar = s.rttvar ∙ i.estimate.rttvar;
      have_rtt = s.have_rtt ∙ i.estimate.have_rtt;
    }

expired-timing :
    (r : Timer) (now : ℕ) (una : Value)
    → IsExpired r now
    → SameEstimate r (pre_tx r now una).0 × ((pre_tx r now una).0.timing ≡ false)
unfolding pre_tx IsExpired
expired-timing r now una (a, b, c) =
    (record { srtt = ground arith; rttvar = ground arith; have_rtt = ground arith }, ground arith)

-- Karn's algorithm: after an expiry no acknowledgement is measured, so SRTT and RTTVAR stay as they
-- are over any run of received segments, polls and sent segments, as long as each segment
-- sent carries no data or repeats data sent before.
pub karn_lem :
    (r : Timer) (now : ℕ) (una : Value) (es : List Event)
    → IsExpired r now
    → resends (pre_tx r now una).0 es ≡ true
    → SameEstimate r (events (pre_tx r now una).0 es)
karn_lem r now una es x h =
    let (e, t) = expired-timing r now una x in
    let s = idle_events (pre_tx r now una).0 es t h in
    record {
      srtt = s.srtt ∙ e.srtt;
      rttvar = s.rttvar ∙ e.rttvar;
      have_rtt = s.have_rtt ∙ e.have_rtt;
    }
