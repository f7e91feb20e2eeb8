-- ===== src/Tcp/Rto/Estimate.antt =====
-- tcp/rto/timer.go: the estimator of the round-trip time, `updateRTT` and `CurrentRTO`.
use lneto.Base.{ℕ, ◌+◌, ◌-◌, ◌*◌, ◌/◌, ◌≤◌, ◌<◌, ◌≡◌, true, false, arith, ltb, if◌then◌else◌}
use lneto.Tcp.Rto.{rto_min, rto_max, Timer, current_rto, shift_towards, update_rtt}

-- A step of `shift_towards` rounds down the weighted mean of both values.
shift_towards-3 :
    (x y : ℕ) → (8 * shift_towards 3 x y ≤ 7 * x + y) × (7 * x + y < 8 * shift_towards 3 x y + 8)
unfolding shift_towards
shift_towards-3 x y = (ground arith, ground arith)

shift_towards-2 :
    (x y : ℕ) → (4 * shift_towards 2 x y ≤ 3 * x + y) × (3 * x + y < 4 * shift_towards 2 x y + 4)
unfolding shift_towards
shift_towards-2 x y = (ground arith, ground arith)

pub current_rto_bounds : (r : Timer) → (rto_min ≤ current_rto r) × (current_rto r ≤ rto_max)
unfolding current_rto
current_rto_bounds r = (ground arith, ground arith)

-- the distance of two naturals
unfoldable pub distance : ℕ → ℕ → ℕ
distance x y = if ltb x y then y - x else x - y

-- Every measurement that is not 0 follows RFC 6298, section 2: the first sets SRTT = R and RTTVAR
-- = R / 2; each later one sets SRTT to 7/8 SRTT + 1/8 R and RTTVAR to 3/4 RTTVAR + 1/4 |SRTT - R|,
-- with the old SRTT and both rounded down to a nanosecond; and RTO = SRTT + 4 RTTVAR. A
-- measurement of 0 changes nothing, and the timeout in effect is within [200 ms, 60 s] always.
pub update_rtt_lem :
    (r : Timer) (sample : ℕ)
    → let r' = update_rtt r sample in
      (sample ≡ 0 → r' ≡ r)
      × (0 < sample → r.have_rtt ≡ false → (r'.srtt ≡ sample) × (r'.rttvar ≡ sample / 2))
      × (0 < sample
          → r.have_rtt ≡ true
          → (8 * r'.srtt ≤ 7 * r.srtt + sample)
            × (7 * r.srtt + sample < 8 * r'.srtt + 8)
            × (4 * r'.rttvar ≤ 3 * r.rttvar + distance r.srtt sample)
            × (3 * r.rttvar + distance r.srtt sample < 4 * r'.rttvar + 4))
      × (0 < sample → (r'.have_rtt ≡ true) × (r'.rto ≡ r'.srtt + 4 * r'.rttvar))
      × (rto_min ≤ current_rto r')
      × (current_rto r' ≤ rto_max)
unfolding update_rtt distance
update_rtt_lem r sample = (
  (λ z. ground arith),
  (λ p f. (ground arith, ground arith)),
  (λ p t. (ground arith, ground arith, ground arith, ground arith)),
  (λ p. (ground arith, ground arith)),
  (current_rto_bounds (update_rtt r sample)).0,
  (current_rto_bounds (update_rtt r sample)).1,
)
