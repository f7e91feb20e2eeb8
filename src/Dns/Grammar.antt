-- ===== src/Dns/Grammar.antt =====
-- dns/dns.go: a message on the wire, as RFC 1035 lays it out, and `DecodeMessage` of it.
use lneto.Base.{
  ℕ, ◌^◌, ◌≤◌, ◌<◌, min, ◌≡◌, refl, false, ◌||◌, none, some, List, arith, ltb, if◌then◌else◌,
  length, take,
}
use lneto.Dns.{exhausted, visited}
use lneto.Dns.Message.{Question, Resource, then_read, decode_question, skip_question}
use lneto.Dns.Records.{QuestionAt, decode_question-QuestionAt, ResourceAt, ItemsAt}
use lneto.Dns.Skips.{skip_question-QuestionAt, and_skip-ItemsAt, decode_to_cap_resources-ResourceAt}
use lneto.Dns.Parse.{
  cap_or_zero, size_header, Message, qd_count, an_count, ns_count, ar_count, decode_questions,
  too_many, decode_message,
}

-- The message has these questions and resources, as many as its header says, and ends at that offset.
pub record MessageAt (msg : List ℕ) (m : Message) (fin : ℕ) : Type 0 where
  pub short : length msg < 2 ^ 16
  pub header : size_header ≤ length msg
  pub qd : qd_count msg ≡ length m.questions
  pub an : an_count msg ≡ length m.answers
  pub ns : ns_count msg ≡ length m.authorities
  pub ar : ar_count msg ≡ length m.additionals
  pub answers_at : ℕ
  pub authorities_at : ℕ
  pub additionals_at : ℕ
  pub questions : ItemsAt (QuestionAt msg) size_header m.questions answers_at
  pub answers : ItemsAt (ResourceAt msg) answers_at m.answers authorities_at
  pub authorities : ItemsAt (ResourceAt msg) authorities_at m.authorities additionals_at
  pub additionals : ItemsAt (ResourceAt msg) additionals_at m.additionals fin

abbrev pub first {ℓ} : {S : Type ℓ} → List S → List S → List S
first dst items = take (min (length dst) (length items)) items

decode_questions-QuestionAt :
    (msg : List ℕ) (off fin : ℕ) (qs dst : List Question)
    → length msg < 2 ^ 16
    → ItemsAt (QuestionAt msg) off qs fin
    → decode_questions (some dst) msg (length qs) off ≡ visited (first dst qs) fin none
unfolding decode_questions
decode_questions-QuestionAt msg off fin qs dst u items =
    let n = min (length dst) (length qs) in
    let choice : (if ltb (length dst) (length qs) then length dst else length qs) ≡ n =
      ground arith in
    rw (choice) (
      and_skip-ItemsAt (QuestionAt msg) decode_question skip_question msg off fin n qs dst
        (λ off fin q q0 a. decode_question-QuestionAt msg off fin q q0 u a)
        (λ off fin q a. skip_question-QuestionAt msg off fin q u a) items (omega arith)
        (omega arith))

-- `DecodeMessage` of a message on the wire, into slices with fewer than 2^16 entries: each slice has
-- the first questions or resources of its section, as many as there is room for, names expanded. The
-- offset is the end of the message. When a section has more than there is room for, the message is
-- incomplete and the error is that of exhausted room, else there is no error.
pub decode_message-MessageAt :
    (msg : List ℕ) (m : Message) (fin : ℕ) (q : List Question)
    (answers authorities additionals : List Resource)
    → MessageAt msg m fin
    → length answers < 2 ^ 16
    → length authorities < 2 ^ 16
    → length additionals < 2 ^ 16
    → decode_message (some q) (some answers) (some authorities) (some additionals) msg ≡ (
        let many =
          ltb (length q) (length m.questions)
          || ltb (length answers) (length m.answers)
          || ltb (length authorities) (length m.authorities)
          || ltb (length additionals) (length m.additionals) in
        visited
          (record {
            message = record {
              questions = first q m.questions;
              answers = first answers m.answers;
              authorities = first authorities m.authorities;
              additionals = first additionals m.additionals;
            };
            incomplete_but_ok = many;
          })
          fin
          (if many then some exhausted else none))
unfolding decode_message then_read too_many cap_or_zero
decode_message-MessageAt msg m fin q answers authorities additionals at a b c =
    let u = at.short in
    let h = at.header in
    let enough : ltb (length msg) size_header ≡ false = ground arith in
    rw
      (
        decode_message,
        enough,
        too_many,
        at.qd,
        at.an,
        at.ns,
        at.ar,
        decode_questions-QuestionAt msg size_header at.answers_at m.questions q u at.questions,
        then_read,
        decode_to_cap_resources-ResourceAt msg at.answers_at at.authorities_at m.answers answers u a
            at.answers,
        then_read,
        decode_to_cap_resources-ResourceAt msg at.authorities_at at.additionals_at m.authorities
            authorities u b at.authorities,
        then_read,
        decode_to_cap_resources-ResourceAt msg at.additionals_at fin m.additionals additionals u c
            at.additionals,
        then_read,
      )
      refl
