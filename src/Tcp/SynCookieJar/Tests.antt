-- ===== src/Tcp/SynCookieJar/Tests.antt =====
-- tcp/syncookie.go at concrete inputs.
use lneto.Base.{◌-◌, ◌^◌, ◌≡◌, refl, some, [], ◌∷◌, arith, add32, sub32}
use lneto.Tcp.SynCookieJar.{
  SynCookieJar, Tuple, hash_tuple, make_syn_cookie, generate_with_counter, validate_syn_cookie,
}
use lneto.Tcp.Value.{Value}
use lneto.Tcp.SynCookieJar.Accepts.{validate_syn_cookie_iff, validate_syn_cookie-make_syn_cookie}

abbrev jar : SynCookieJar
jar = record {
  counter = 2 ^ 32 - 1;
  max_counter_delta = 2;
  secret = record { s0 = 11; s1 = 22; s2 = 33; s3 = 44 };
}

abbrev client : Tuple
client = record {
  src_addr = 10 ∷ 0 ∷ 0 ∷ 1 ∷ [];
  dst_addr = 10 ∷ 0 ∷ 0 ∷ 2 ∷ [];
  src_port = 4000;
  dst_port = 80;
  client_isn = 77;
}

-- The jar after two increments, round 2 ^ 32.
abbrev jar_later : SynCookieJar
jar_later = record jar { counter = 1 }

validate_syn_cookie-make_syn_cookie_example :
    validate_syn_cookie jar_later client (add32 (make_syn_cookie jar client) 1)
    ≡ some (make_syn_cookie jar client)
validate_syn_cookie-make_syn_cookie_example =
    validate_syn_cookie-make_syn_cookie jar client 2 (omega arith) (omega arith) (omega arith)

abbrev ack_num : Value
ack_num = 552985664

validate_syn_cookie_iff_example :
    validate_syn_cookie jar_later client ack_num ≡ some (sub32 ack_num 1)
unfolding make_syn_cookie generate_with_counter hash_tuple
validate_syn_cookie_iff_example =
    (validate_syn_cookie_iff jar_later client ack_num).0 (2, omega arith, refl)
