-- ===== src/Tcp/SynCookieJar.antt =====
-- tcp/syncookie.go: SYN cookies. `x & (1<<k - 1)` is `x % 2 ^ k`, and `x<<k | y` for a `y` of `k`
-- bits is `x * 2 ^ k + y`, both on `uint32`. Addresses are lists of bytes.
pub mod Accepts
mod Tests
use lneto.Base.{
  ℕ, zero, suc, ◌+◌, ◌-◌, ◌*◌, ◌/◌, ◌%◌, ◌^◌, Bool, true, false, not, Option, none, some, List, [],
  ◌∷◌, leb, ◌==◌, if◌then◌else◌, bit_xor, add32, sub32, u32_mod,
}
use lneto.Tcp.Value.{Value}

-- The four words of the secret are read once from the random source.
pub record Secret : Type 0 where
  pub s0 : ℕ
  pub s1 : ℕ
  pub s2 : ℕ
  pub s3 : ℕ

pub record SynCookieJar : Type 0 where
  pub counter : ℕ
  pub max_counter_delta : ℕ
  pub secret : Secret

-- What a cookie is bound to: addresses, ports and the client's initial sequence number.
pub record Tuple : Type 0 where
  pub src_addr : List ℕ
  pub dst_addr : List ℕ
  pub src_port : ℕ
  pub dst_port : ℕ
  pub client_isn : Value

-- `Reset`: `rand` is `none` for no random source, and else the secret after reading from it with
-- whether all of it was read. The result tells whether the call succeeded.
unfoldable pub reset : SynCookieJar → Option (Secret × Bool) → ℕ → SynCookieJar × Bool
reset sc none max_delta = (sc, false)
reset sc (some (secret, false)) max_delta = (record sc { secret = secret }, false)
reset sc (some (secret, true)) max_delta = (
  record sc { secret = secret; max_counter_delta = if max_delta == 0 then 1 else max_delta },
  true,
)

unfoldable pub increment_counter : SynCookieJar → SynCookieJar
increment_counter sc = record sc { counter = add32 sc.counter 1 }

-- Four words of 32 bits.
pub record Words : Type 0 where
  pub a : ℕ
  pub b : ℕ
  pub c : ℕ
  pub d : ℕ

-- `x << n | x >> (32 - n)`
unfoldable pub rotl32 : ℕ → ℕ → ℕ
rotl32 x n = x * 2 ^ n % u32_mod + x / 2 ^ (32 - n)

unfoldable pub mix_round : Words → Words
unfolding rotl32
mix_round w =
    let a1 = add32 w.a w.b in
    let d1 = rotl32 (bit_xor w.d a1) 16 in
    let c1 = add32 w.c d1 in
    let b1 = rotl32 (bit_xor w.b c1) 12 in
    let a2 = add32 a1 b1 in
    let d2 = rotl32 (bit_xor d1 a2) 8 in
    let c2 = add32 c1 d2 in
    let b2 = rotl32 (bit_xor b1 c2) 7 in record { a = a2; b = b2; c = c2; d = d2 }

unfoldable pub mix_src : List ℕ → Words → Words
unfolding mix_round
mix_src (x0 ∷ x1 ∷ x2 ∷ x3 ∷ rest) w =
    mix_src rest
      (mix_round (record w { d = bit_xor w.d (x0 + x1 * 2 ^ 8 + x2 * 2 ^ 16 + x3 * 2 ^ 24) }))
mix_src (x0 ∷ x1 ∷ x2 ∷ []) w = record w { d = bit_xor w.d (x0 + x1 * 2 ^ 8 + x2 * 2 ^ 16) }
mix_src (x0 ∷ x1 ∷ []) w = record w { d = bit_xor w.d (x0 + x1 * 2 ^ 8) }
mix_src (x0 ∷ []) w = record w { d = bit_xor w.d x0 }
mix_src [] w = w

unfoldable pub mix_dst : List ℕ → Words → Words
unfolding mix_round
mix_dst (x0 ∷ x1 ∷ x2 ∷ x3 ∷ rest) w =
    mix_dst rest
      (mix_round (record w { a = bit_xor w.a (x0 + x1 * 2 ^ 8 + x2 * 2 ^ 16 + x3 * 2 ^ 24) }))
mix_dst (x0 ∷ x1 ∷ x2 ∷ []) w = record w { a = bit_xor w.a (x0 + x1 * 2 ^ 8 + x2 * 2 ^ 16) }
mix_dst (x0 ∷ x1 ∷ []) w = record w { a = bit_xor w.a (x0 + x1 * 2 ^ 8) }
mix_dst (x0 ∷ []) w = record w { a = bit_xor w.a x0 }
mix_dst [] w = w

unfoldable pub hash_tuple : SynCookieJar → Tuple → ℕ → ℕ
unfolding mix_src mix_dst mix_round
hash_tuple sc t counter =
    let w0 : Words = record {
      a = bit_xor sc.secret.s0 (t.src_port + t.dst_port * 2 ^ 16);
      b = bit_xor sc.secret.s1 t.client_isn;
      c = bit_xor sc.secret.s2 counter;
      d = sc.secret.s3;
    } in
    let w = mix_round (mix_round (mix_dst t.dst_addr (mix_src t.src_addr w0))) in
    bit_xor (bit_xor (bit_xor w.a w.b) w.c) w.d

-- `countermsk` of `counterbits`
abbrev pub counter_bits : ℕ
counter_bits = 5

unfoldable pub generate_with_counter : SynCookieJar → Tuple → ℕ → Value
generate_with_counter sc t counter =
    hash_tuple sc t counter * 2 ^ counter_bits % u32_mod + counter % 2 ^ counter_bits

unfoldable pub make_syn_cookie : SynCookieJar → Tuple → Value
unfolding generate_with_counter
make_syn_cookie sc t = generate_with_counter sc t sc.counter

-- The loop over `delta`, with the rounds that are left.
unfoldable pub try_counters : SynCookieJar → Tuple → Value → ℕ → ℕ → Option Value
unfolding generate_with_counter
try_counters sc t cookie delta zero = none
try_counters sc t cookie delta (suc rounds) =
    let try_counter = sub32 sc.counter delta in
    let rest = try_counters sc t cookie (delta + 1) rounds in
    if not (try_counter % 2 ^ counter_bits == cookie % 2 ^ counter_bits)
    then rest
    else if generate_with_counter sc t try_counter == cookie
    then some cookie
    else rest

-- `none` is the error. The rounds are those of a limit below 2 ^ 32 - 1, the largest `uint32`.
unfoldable pub validate_syn_cookie : SynCookieJar → Tuple → Value → Option Value
unfolding try_counters
validate_syn_cookie sc t ack_num = try_counters sc t (sub32 ack_num 1) 0 (sc.max_counter_delta + 1)

unfoldable pub encode_mss_index : ℕ → ℕ
encode_mss_index mss =
    if leb mss 536 then 0 else if leb mss 1220 then 1 else if leb mss 1460 then 2 else 3

unfoldable pub decode_mss_index : ℕ → ℕ
decode_mss_index idx =
    let i = idx % 4 in
    if i == 0 then 536 else if i == 1 then 1220 else if i == 2 then 1460 else 8960
