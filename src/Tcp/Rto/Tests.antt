-- ===== src/Tcp/Rto/Tests.antt =====
-- Witnesses for tcp/rto/timer.go, on a timer with ten bytes outstanding since one second.
use lneto.Base.{
  ℕ, ◌+◌, ◌*◌, ◌≤◌, ◌<◌, min, ◌≡◌, refl, true, false, none, some, [], ◌∷◌, arith, add32,
}
use lneto.Tcp.Value.{less_than}
use lneto.Tcp.Segment.{flag_ack, Segment, seg_len}
use lneto.Tcp.Rto.{
  rto_min, rto_max, backoff_max, Timer, initial, current_rto, next_deadline, update_rtt, pre_tx,
  begin_timing, arm, observe_start, post_tx,
}
use lneto.Tcp.Rto.Estimate.{update_rtt_lem, distance}
use lneto.Tcp.Rto.Expiry.{IsExpired, pre_tx_lem}
use lneto.Tcp.Rto.Karn.{received, sent, event, events, is_resend, resends, SameEstimate, karn_lem}

abbrev ten_bytes : Segment
ten_bytes = record { seq = 101; ack = 301; datalen = 10; wnd = 1000; flags = flag_ack }

abbrev ack_all : Segment
ack_all = record { seq = 301; ack = 111; datalen = 0; wnd = 1000; flags = flag_ack }

abbrev outstanding : Timer
outstanding = record {
  srtt = 80_000_000;
  rttvar = 10_000_000;
  rto = 120_000_000;
  have_rtt = true;
  have_seq = true;
  snd_una = 101;
  snd_nxt = 111;
  timing = true;
  timed_seq = 111;
  timed_at = 1_000_000_000;
  running = true;
  deadline = 1_200_000_000;
  backoff = 0;
  expirations = 0;
}

-- an expiry backs off to 400 ms
abbrev expired : Timer
expired = record outstanding {
  rto = 400_000_000;
  timing = false;
  deadline = 1_600_000_000;
  backoff = 1;
  expirations = 1;
}

first_sent : post_tx initial ten_bytes 5 ≡ record initial {
  have_seq = true;
  snd_una = 101;
  snd_nxt = 111;
  timing = true;
  timed_seq = 111;
  timed_at = 5;
  running = true;
  deadline = 1_000_000_005;
}
unfolding post_tx initial observe_start begin_timing arm current_rto less_than seg_len
first_sent = refl

expires : pre_tx outstanding 1_200_000_000 101 ≡ (expired, some 101)
unfolding pre_tx current_rto
expires = refl

pre_tx_lem_example :
    (expired.timing ≡ false)
    × (expired.expirations ≡ add32 outstanding.expirations 1)
    × (outstanding.backoff < backoff_max
        → current_rto expired ≡ min (current_rto outstanding * 2) rto_max)
    × (backoff_max ≤ outstanding.backoff → current_rto expired ≡ current_rto outstanding)
    × (next_deadline expired ≡ 1_200_000_000 + current_rto expired)
    × ((later : ℕ)
        → later < 1_200_000_000 + current_rto expired
        → pre_tx expired later 101 ≡ (expired, none))
unfolding pre_tx current_rto IsExpired
pre_tx_lem_example = (pre_tx_lem outstanding 1_200_000_000 101).2 (refl, omega arith, ground arith)

-- the late acknowledgement of the segment sent twice
karn_lem_example : SameEstimate outstanding (
    events
      (pre_tx outstanding 1_200_000_000 101).0
      (sent ten_bytes 1_200_000_001 ∷ received ack_all 1_200_000_500 ∷ []))
unfolding IsExpired pre_tx current_rto resends is_resend event less_than seg_len post_tx
    observe_start
karn_lem_example =
    karn_lem outstanding 1_200_000_000 101
      (sent ten_bytes 1_200_000_001 ∷ received ack_all 1_200_000_500 ∷ [])
      (refl, omega arith, ground arith) refl

-- a round trip of 100 ms, in nanoseconds
abbrev sample : ℕ
sample = 100_000_000

update_rtt_lem_example :
    let r' = update_rtt outstanding sample in
    (sample ≡ 0 → r' ≡ outstanding)
    × (0 < sample → outstanding.have_rtt ≡ false → (r'.srtt ≡ sample) × (r'.rttvar ≡ 50_000_000))
    × (0 < sample
        → outstanding.have_rtt ≡ true
        → (8 * r'.srtt ≤ 7 * outstanding.srtt + sample)
          × (7 * outstanding.srtt + sample < 8 * r'.srtt + 8)
          × (4 * r'.rttvar ≤ 3 * outstanding.rttvar + distance outstanding.srtt sample)
          × (3 * outstanding.rttvar + distance outstanding.srtt sample < 4 * r'.rttvar + 4))
    × (0 < sample → (r'.have_rtt ≡ true) × (r'.rto ≡ r'.srtt + 4 * r'.rttvar))
    × (rto_min ≤ current_rto r')
    × (current_rto r' ≤ rto_max)
update_rtt_lem_example = update_rtt_lem outstanding sample
