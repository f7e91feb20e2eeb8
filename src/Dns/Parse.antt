-- ===== src/Dns/Parse.antt =====
-- dns/dns.go: `DecodeMessage`, and what it reads of the header (dns/definitions.go).
use lneto.Base.{
  ℕ, ◌-◌, Bool, false, ◌||◌, Option, none, some, List, [], ltb, if◌then◌else◌, length, take,
}
use lneto.Tcp.Frame.{uint16}
use lneto.Dns.{truncated, exhausted, Visit, visited}
use lneto.Dns.Message.{
  Question, Resource, then_read, decode_question, skip_question, decode_each, skip_each, and_skip,
  decode_to_cap_resources,
}

abbrev pub size_header : ℕ
size_header = 12

-- `Message`, with the entries that a call has decoded.
pub record Message : Type 0 where
  pub questions : List Question
  pub answers : List Resource
  pub authorities : List Resource
  pub additionals : List Resource

-- What `DecodeMessage` gives besides the offset and the error.
pub record Decoded : Type 0 where
  pub message : Message
  pub incomplete_but_ok : Bool

unfoldable pub qd_count : List ℕ → ℕ
unfolding uint16
qd_count msg = uint16 msg 4

unfoldable pub an_count : List ℕ → ℕ
unfolding uint16
an_count msg = uint16 msg 6

unfoldable pub ns_count : List ℕ → ℕ
unfolding uint16
ns_count msg = uint16 msg 8

unfoldable pub ar_count : List ℕ → ℕ
unfolding uint16
ar_count msg = uint16 msg 10

unfoldable pub cap_or_zero {ℓ} : {S : Type ℓ} → Option (List S) → ℕ
cap_or_zero none = 0
cap_or_zero (some dst) = length dst

-- The questions that there is room for are decoded, the others skipped.
unfoldable pub decode_questions : Option (List Question) → List ℕ → ℕ → ℕ → Visit (List Question)
unfolding decode_each skip_each and_skip decode_question skip_question
decode_questions none msg qd off =
    and_skip (visited [] off none) (λ off. skip_each skip_question qd msg off)
decode_questions (some dst) msg qd off =
    let nq = if ltb (length dst) qd then length dst else qd in
    and_skip (decode_each decode_question (take nq dst) msg off)
      (λ off. skip_each skip_question (qd - nq) msg off)

-- `tooManyErr != nil`
unfoldable pub too_many :
    Option (List Question)
    → Option (List Resource)
    → Option (List Resource)
    → Option (List Resource)
    → List ℕ
    → Bool
unfolding cap_or_zero qd_count an_count ns_count ar_count
too_many q answers authorities additionals msg =
    ltb (cap_or_zero q) (qd_count msg)
    || ltb (cap_or_zero answers) (an_count msg)
    || ltb (cap_or_zero authorities) (ns_count msg)
    || ltb (cap_or_zero additionals) (ar_count msg)

unfoldable pub decode_message :
    Option (List Question)
    → Option (List Resource)
    → Option (List Resource)
    → Option (List Resource)
    → List ℕ
    → Visit Decoded
unfolding decode_questions decode_to_cap_resources then_read too_many qd_count an_count ns_count
    ar_count
decode_message q answers authorities additionals msg =
    if ltb (length msg) size_header
    then visited
        (record {
          message = record { questions = []; answers = []; authorities = []; additionals = [] };
          incomplete_but_ok = false;
        })
        0 (some truncated)
    else then_read (decode_questions q msg (qd_count msg) size_header)
        (λ qs off e.
          visited
            (record {
              message = record { questions = qs; answers = []; authorities = []; additionals = [] };
              incomplete_but_ok = false;
            })
            off (some e))
        (λ qs off.
          then_read (decode_to_cap_resources answers msg (an_count msg) off)
            (λ ans off e.
              visited
                (record {
                  message = record {
                    questions = qs;
                    answers = ans;
                    authorities = [];
                    additionals = [];
                  };
                  incomplete_but_ok = false;
                })
                off (some e))
            (λ ans off.
              then_read (decode_to_cap_resources authorities msg (ns_count msg) off)
                (λ auth off e.
                  visited
                    (record {
                      message = record {
                        questions = qs;
                        answers = ans;
                        authorities = auth;
                        additionals = [];
                      };
                      incomplete_but_ok = false;
                    })
                    off (some e))
                (λ auth off.
                  then_read (decode_to_cap_resources additionals msg (ar_count msg) off)
                    (λ add off e.
                      visited
                        (record {
                          message = record {
                            questions = qs;
                            answers = ans;
                            authorities = auth;
                            additionals = add;
                          };
                          incomplete_but_ok = false;
                        })
                        off (some e))
                    (λ add off.
                      let many = too_many q answers authorities additionals msg in
                      visited
                        (record {
                          message = record {
                            questions = qs;
                            answers = ans;
                            authorities = auth;
                            additionals = add;
                          };
                          incomplete_but_ok = many;
                        })
                        off (if many then some exhausted else none)))))
