-- ===== src/Tcp/Rto.antt =====
-- tcp/rto/timer.go: the retransmission timer of RFC 6298. Instants and durations are nanoseconds, as
-- natural numbers below the bounds of `int64`; the clock's reading is the argument `now`. A method on
-- `*Timer` returns the new timer.
pub mod Estimate
pub mod Expiry
pub mod Karn
mod Tests
use lneto.Base.{
  ℕ, ◌+◌, ◌-◌, ◌*◌, ◌/◌, ◌^◌, min, Bool, true, false, not, ◌&&◌, ◌||◌, Option, none, some, ltb, leb,
  ◌==◌, if◌then◌else◌, add8, add32,
}
use lneto.Tcp.Value.{Value, less_than}
use lneto.Tcp.Segment.{flag_ack, has_any, Segment, seg_len}

abbrev pub rto_initial : ℕ
rto_initial = 1_000_000_000

abbrev pub rto_min : ℕ
rto_min = 200_000_000

abbrev pub rto_max : ℕ
rto_max = 60_000_000_000

abbrev pub rtt_gain_shift : ℕ
rtt_gain_shift = 3

abbrev pub rttvar_gain_shift : ℕ
rttvar_gain_shift = 2

abbrev pub rttvar_k : ℕ
rttvar_k = 4

abbrev pub backoff_max : ℕ
backoff_max = 12

pub record Timer : Type 0 where
  pub srtt : ℕ
  pub rttvar : ℕ
  pub rto : ℕ
  pub have_rtt : Bool
  pub have_seq : Bool
  pub snd_una : Value
  pub snd_nxt : Value
  pub timing : Bool
  pub timed_seq : Value
  pub timed_at : ℕ
  pub running : Bool
  pub deadline : ℕ
  pub backoff : ℕ  -- uint8
  pub expirations : ℕ  -- uint32

-- `Configure` with a clock, and `Reset`.
unfoldable pub initial : Timer
initial = record {
  srtt = 0;
  rttvar = 0;
  rto = rto_initial;
  have_rtt = false;
  have_seq = false;
  snd_una = 0;
  snd_nxt = 0;
  timing = false;
  timed_seq = 0;
  timed_at = 0;
  running = false;
  deadline = 0;
  backoff = 0;
  expirations = 0;
}

unfoldable pub current_rto : Timer → ℕ
current_rto r = if ltb r.rto rto_min then rto_min else if ltb rto_max r.rto then rto_max else r.rto

unfoldable pub next_deadline : Timer → ℕ
next_deadline r = if not r.running then 0 else r.deadline

-- `x += (y - x) >> k` on `int64`, where the shift rounds down.
unfoldable pub shift_towards : ℕ → ℕ → ℕ → ℕ
shift_towards k x y = if leb x y then x + (y - x) / 2 ^ k else x - (x - y + (2 ^ k - 1)) / 2 ^ k

-- A sample of 0 stands for every sample that is not positive.
unfoldable pub update_rtt : Timer → ℕ → Timer
unfolding shift_towards
update_rtt r sample =
    let diff = if ltb r.srtt sample then sample - r.srtt else r.srtt - sample in
    let rttvar' = shift_towards rttvar_gain_shift r.rttvar diff in
    let srtt' = shift_towards rtt_gain_shift r.srtt sample in
    if sample == 0
    then r
    else if not r.have_rtt
    then record r {
      srtt = sample;
      rttvar = sample / 2;
      have_rtt = true;
      rto = sample + rttvar_k * (sample / 2);
    }
    else record r { srtt = srtt'; rttvar = rttvar'; rto = srtt' + rttvar_k * rttvar' }

-- The three steps of `postRx`.
unfoldable pub take_sample : Timer → Value → ℕ → Timer
take_sample r ack now =
    if r.timing && not (less_than ack r.timed_seq)
    then record (update_rtt r (now - r.timed_at)) { timing = false; backoff = 0 }
    else r

unfoldable pub advance_una : Timer → Value → Timer
advance_una r ack =
    if less_than r.snd_una ack && not (less_than r.snd_nxt ack)
    then record r { snd_una = ack }
    else r

unfoldable pub rearm : Timer → ℕ → Timer
rearm r now =
    if r.snd_una == r.snd_nxt
    then record r { running = false }
    else record r { running = true; deadline = now + current_rto r }

unfoldable pub post_rx : Timer → Segment → ℕ → Timer
post_rx r incoming now =
    if not r.have_seq || not (has_any incoming.flags flag_ack)
    then r
    else rearm (advance_una (take_sample r incoming.ack now) incoming.ack) now

-- The sequence number to retransmit from, where there is one; the transmit limit is always
-- `TransmitUnlimited`.
unfoldable pub pre_tx : Timer → ℕ → Value → Timer × Option Value
pre_tx r now una =
    let counted = record r {
      expirations = add32 r.expirations 1;
      timing = false;
      running = true;
    } in
    let rto' = min (current_rto r * 2) rto_max in
    let backed = record counted { backoff = add8 r.backoff 1; rto = rto' } in
    if not r.running || ltb now r.deadline || r.snd_una == r.snd_nxt
    then (r, none)
    else if ltb r.backoff backoff_max
    then (record backed { deadline = now + current_rto backed }, some una)
    else (record counted { deadline = now + current_rto counted }, some una)

unfoldable pub begin_timing : Timer → Value → ℕ → Timer
begin_timing r seg_end now =
    if not r.timing then record r { timing = true; timed_seq = seg_end; timed_at = now } else r

unfoldable pub arm : Timer → ℕ → Timer
arm r now = if not r.running then record r { running = true; deadline = now + current_rto r } else r

-- `haveSeq` and the first sequence numbers.
unfoldable pub observe_start : Timer → Value → Timer
observe_start r seg_start =
    if not r.have_seq
    then record r { have_seq = true; snd_una = seg_start; snd_nxt = seg_start }
    else r

unfoldable pub post_tx : Timer → Segment → ℕ → Timer
post_tx r outgoing now =
    let seg_end = add32 outgoing.seq (seg_len outgoing) in
    let r1 = observe_start r outgoing.seq in
    if outgoing.datalen == 0
    then r
    else if not (less_than r1.snd_nxt seg_end)
    then record r1 { timing = false }
    else arm (begin_timing (record r1 { snd_nxt = seg_end }) seg_end now) now
