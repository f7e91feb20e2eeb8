-- ===== src/Tcp/Rto/Expiry.antt =====
-- tcp/rto/timer.go: what the expiry of the timer does, `preTx`.
use lneto.Base.{
  ℕ, ◌+◌, ◌*◌, ◌≤◌, ◌<◌, min, ◌≡◌, ◌≢◌, ◌↔◌, inl, inr, true, false, not, ◌||◌, none, some, arith,
  ltb, ◌==◌, Bool-cases, add32,
}
use lneto.Tcp.Value.{Value}
use lneto.Tcp.Rto.{rto_max, backoff_max, Timer, current_rto, next_deadline, pre_tx}

-- the condition under which `preTx` asks for a retransmission
unfoldable pub IsExpired : Timer → ℕ → Type 0
IsExpired r now = (r.running ≡ true) × (r.deadline ≤ now) × (r.snd_una ≢ r.snd_nxt)

not_expired :
    (r : Timer) (now : ℕ)
    → ¬ IsExpired r now
    → (not r.running || ltb now r.deadline || r.snd_una == r.snd_nxt) ≡ true
unfolding IsExpired
not_expired r now n =
    elim (Bool-cases (not r.running || ltb now r.deadline || r.snd_una == r.snd_nxt)) [
      | inl y ↦ y
      | inr e ↦ absurd (n (ground arith, ground arith, ground arith))
    ]

-- `preTx` asks for a retransmission, from `una`, exactly when the timer is armed, its deadline has
-- come and data is outstanding; otherwise the timer stays as it was. After an expiry: the
-- measurement under way is dropped and the expiry counted; the timeout in effect is doubled
-- up to 60 s while fewer than 12 expiries are counted since the last measurement, and else stays;
-- the timer runs, with that timeout from now on; and a second call at
-- any instant before that new deadline asks for nothing.
pub pre_tx_lem :
    (r : Timer) (now : ℕ) (una : Value)
    → let r' = (pre_tx r now una).0 in
      ((pre_tx r now una).1 ≡ some una ↔ IsExpired r now)
      × (¬ IsExpired r now → pre_tx r now una ≡ (r, none))
      × (IsExpired r now
          → (r'.timing ≡ false)
            × (r'.expirations ≡ add32 r.expirations 1)
            × (r.backoff < backoff_max → current_rto r' ≡ min (current_rto r * 2) rto_max)
            × (backoff_max ≤ r.backoff → current_rto r' ≡ current_rto r)
            × (next_deadline r' ≡ now + current_rto r')
            × ((later : ℕ) → later < now + current_rto r' → pre_tx r' later una ≡ (r', none)))
unfolding pre_tx IsExpired next_deadline current_rto
pre_tx_lem r now una = (
  ((λ e. ground arith), λ (a, b, c). ground arith),
  (λ n. ground (arith, not_expired r now n)),
  λ (a, b, c). (
    ground arith,
    ground arith,
    (λ l. ground arith),
    (λ l. ground arith),
    ground arith,
    λ later l. ground arith,
  ),
)
