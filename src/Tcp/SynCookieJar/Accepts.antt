-- ===== src/Tcp/SynCookieJar/Accepts.antt =====
-- tcp/syncookie.go: which acknowledgements are accepted.
use lneto.Base.{
  ℕ, zero, suc, ◌+◌, ◌%◌, ◌^◌, ◌≤◌, ◌<◌, ◌≡◌, refl, sym, ap, ◌∙◌, inl, inr, not, some, arith, ◌==◌,
  Bool-cases, ==_iff, IsU32, add32, sub32,
}
use lneto.Tcp.Value.{Value}
use lneto.Tcp.SynCookieJar.{
  SynCookieJar, Tuple, hash_tuple, counter_bits, generate_with_counter, make_syn_cookie,
  try_counters, validate_syn_cookie,
}

-- Some counter from `delta` on, of `rounds`, gives the cookie.
Given : SynCookieJar → Tuple → Value → ℕ → ℕ → Type 0
Given sc t cookie delta rounds =
    (d : ℕ) × (delta ≤ d)
    × (d < delta + rounds)
    × (generate_with_counter sc t (sub32 sc.counter d) ≡ cookie)

counter_of_cookie :
    (sc : SynCookieJar) (t : Tuple) (counter : ℕ)
    → generate_with_counter sc t counter % 2 ^ counter_bits ≡ counter % 2 ^ counter_bits
unfolding generate_with_counter
counter_of_cookie sc t counter = omega arith

try_counters_found :
    (sc : SynCookieJar) (t : Tuple) (cookie : Value) (delta rounds : ℕ)
    → Given sc t cookie delta rounds
    → try_counters sc t cookie delta rounds ≡ some cookie
unfolding try_counters Given
try_counters_found sc t cookie delta zero (d, p, q, e) = absurd (omega arith)
try_counters_found sc t cookie delta (suc rounds) (d, p, q, e) = elim (Bool-cases (d == delta)) [
  | inl y ↦
      let s = (==_iff d delta).0 y in
      let e' = ap (λ k. generate_with_counter sc t (sub32 sc.counter k)) (sym s) ∙ e in
      let c =
        sym (counter_of_cookie sc t (sub32 sc.counter delta)) ∙ ap (λ v. v % 2 ^ counter_bits) e' in
      rw
        (
          (==_iff (sub32 sc.counter delta % 2 ^ counter_bits) (cookie % 2 ^ counter_bits)).1 c,
          (==_iff (generate_with_counter sc t (sub32 sc.counter delta)) cookie).1 e',
        )
        refl
  | inr n ↦
      let ih =
        try_counters_found sc t cookie (delta + 1) rounds (d, ground arith, omega arith, e) in
      ground (arith, ih)
]

try_counters_inv :
    (sc : SynCookieJar) (t : Tuple) (cookie v : Value) (delta rounds : ℕ)
    → try_counters sc t cookie delta rounds ≡ some v
    → (v ≡ cookie) × Given sc t cookie delta rounds
unfolding try_counters Given
try_counters_inv sc t cookie v delta zero h = absurd (ground arith)
try_counters_inv sc t cookie v delta (suc rounds) h =
    let later = λ (r : try_counters sc t cookie (delta + 1) rounds ≡ some v).
      let (e, (d, p, q, g)) = try_counters_inv sc t cookie v (delta + 1) rounds r in
      let out : (v ≡ cookie) × Given sc t cookie delta (suc rounds) =
        (e, (d, omega arith, omega arith, g)) in
      out in
    elim (Bool-cases
      (not (sub32 sc.counter delta % 2 ^ counter_bits == cookie % 2 ^ counter_bits))) [
        | inl y ↦ later (rw y at h)
        | inr n ↦
            elim (Bool-cases (generate_with_counter sc t (sub32 sc.counter delta) == cookie)) [
              | inl y ↦ (ground arith, (delta, omega arith, omega arith, ground arith))
              | inr m ↦ later (rw (n, m) at h)
            ]
      ]

made :
    (sc : SynCookieJar) (t : Tuple) (counter : ℕ)
    → generate_with_counter sc t counter ≡ make_syn_cookie (record sc { counter = counter }) t
unfolding make_syn_cookie generate_with_counter hash_tuple
made sc t counter = refl

make_syn_cookie-IsU32 : (sc : SynCookieJar) (t : Tuple) → IsU32 (make_syn_cookie sc t)
unfolding make_syn_cookie generate_with_counter
make_syn_cookie-IsU32 sc t = omega arith

-- `ValidateSYNCookie` accepts exactly the acknowledgements of a cookie, one past it, that
-- `MakeSYNCookie` gives for the same tuple and secret at the jar's counter or at one of the
-- `maxCounterDelta` counters before it, modulo 2 ^ 32; it returns that cookie, and else an error.
pub validate_syn_cookie_iff :
    (sc : SynCookieJar) (t : Tuple) (ack_num : Value)
    → ((d : ℕ) × (d ≤ sc.max_counter_delta)
          × (make_syn_cookie (record sc { counter = sub32 sc.counter d }) t ≡ sub32 ack_num 1)
        → validate_syn_cookie sc t ack_num ≡ some (sub32 ack_num 1))
      × ((v : Value)
          → validate_syn_cookie sc t ack_num ≡ some v
          → (v ≡ sub32 ack_num 1)
            × ((d : ℕ) × (d ≤ sc.max_counter_delta)
                × (make_syn_cookie (record sc { counter = sub32 sc.counter d }) t
                    ≡ sub32 ack_num 1)))
unfolding validate_syn_cookie Given
validate_syn_cookie_iff sc t ack_num =
    let cookie = sub32 ack_num 1 in
    let rounds = sc.max_counter_delta + 1 in
    (
      (λ (d, p, e).
          try_counters_found sc t cookie 0 rounds
            (d, omega arith, omega arith, made sc t (sub32 sc.counter d) ∙ e)),
      λ v h.
          let (e, (d, p, q, g)) = try_counters_inv sc t cookie v 0 rounds h in
          (e, (d, omega arith, sym (made sc t (sub32 sc.counter d)) ∙ g)),
    )

-- A cookie made by a jar is accepted by the jar after any `n` increments of its counter up to
-- `maxCounterDelta`, from the acknowledgement one past it.
pub validate_syn_cookie-make_syn_cookie :
    (sc : SynCookieJar) (t : Tuple) (n : ℕ)
    → IsU32 sc.counter
    → n ≤ sc.max_counter_delta
    → n < 2 ^ 32
    → let later = record sc { counter = add32 sc.counter n } in
      validate_syn_cookie later t (add32 (make_syn_cookie sc t) 1) ≡ some (make_syn_cookie sc t)
unfolding generate_with_counter
validate_syn_cookie-make_syn_cookie sc t n u p w =
    let later : SynCookieJar = record sc { counter = add32 sc.counter n } in
    let cookie = make_syn_cookie sc t in
    let back : sub32 (add32 cookie 1) 1 ≡ cookie = omega (arith, make_syn_cookie-IsU32 sc t) in
    let at : sub32 (add32 sc.counter n) n ≡ sc.counter = omega arith in
    (validate_syn_cookie_iff later t (add32 cookie 1)).0
      (n, p, ap (λ k. make_syn_cookie (record sc { counter = k }) t) at ∙ sym back)
    ∙ ap (λ v. some v) back
