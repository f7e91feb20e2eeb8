-- ===== src/Dns/RoundTrip.antt =====
-- dns/dns.go: `DecodeMessage` of what `Message.AppendTo` appends.
use lneto.Base.{
  ℕ, ◌+◌, ◌^◌, ◌≤◌, ◌<◌, min, ◌≡◌, refl, sym, ap, ◌∙◌, subst, inl, inr, false, none, some, List, [],
  ◌∷◌, ◌++◌, append-nil, append_assoc, arith, ltb, IsU16, length, take, drop, length-append,
  take_all, take_at, ran,
}
use lneto.Tcp.Frame.{uint16}
use lneto.Dns.{visited}
use lneto.Dns.Message.{Question, ResourceHeader, Resource}
use lneto.Dns.Records.{
  QuestionAt, HeaderAt, ResourceAt, DataAt, plain, expanded, ItemsAt, no_items, and_item,
}
use lneto.Dns.Parse.{size_header, Message, qd_count, an_count, ns_count, ar_count, decode_message}
use lneto.Dns.Grammar.{MessageAt, decode_message-MessageAt, first}
use lneto.Dns.Append.{Buf, be16, be32, header_bytes, append_message}
use lneto.Dns.Bytes.{
  question_bytes, resource_header_bytes, resource_bytes, all_bytes, message_bytes, AllOk,
  no_entries, and_ok,
}
use lneto.Dns.Encode.{IsNamed, append_message-message_bytes}
use lneto.Dns.Layout.{
  IsQuestion, IsHeader, IsResource, drop_on, ends_inside, uint16_at, uint32_at, name_at, some_name,
  question_at,
}

header_at :
    (msg : List ℕ) (off : ℕ) (h : ResourceHeader) (rest : List ℕ)
    → IsHeader h
    → drop off msg ≡ resource_header_bytes h ++ rest
    → HeaderAt msg off h (off + length (resource_header_bytes h))
unfolding resource_header_bytes be16 be32
header_at msg off h rest i e =
    let k = be16 h.kind in
    let c = be16 h.class in
    let t = be32 h.ttl in
    let s = be16 h.size in
    let mid = off + length h.name in
    let split : drop off msg ≡ h.name ++ (k ++ (c ++ (t ++ (s ++ rest)))) =
      e ∙ append_assoc h.name (k ++ (c ++ (t ++ s))) rest in
    let fields : drop mid msg ≡ k ++ (c ++ (t ++ (s ++ rest))) =
      drop_on msg off h.name (k ++ (c ++ (t ++ (s ++ rest)))) split in
    let l = length-append h.name (k ++ (c ++ (t ++ s))) in
    record {
      mid = mid;
      name = name_at msg off h.name (k ++ (c ++ (t ++ (s ++ rest)))) i.name split;
      kind = uint16_at msg mid h.kind (c ++ (t ++ (s ++ rest))) i.kind fields;
      class =
          uint16_at msg (mid + 2) h.class (t ++ (s ++ rest)) i.class
            (drop_on msg mid k (c ++ (t ++ (s ++ rest))) fields);
      ttl =
          uint32_at msg (mid + 4) h.ttl (s ++ rest) i.ttl
            (drop_on msg mid (k ++ c) (t ++ (s ++ rest)) fields);
      size =
          uint16_at msg (mid + 8) h.size rest i.size
            (drop_on msg mid (k ++ (c ++ t)) (s ++ rest) fields);
      next = omega arith;
      inside =
          let b = ends_inside msg mid (k ++ (c ++ (t ++ s))) rest fields (omega arith) in
          omega arith;
    }

data_at :
    (msg : List ℕ) (mid : ℕ) (r : Resource) (rest : List ℕ)
    → IsResource r
    → drop mid msg ≡ r.raw ++ rest
    → DataAt msg mid r.header r
data_at msg mid r rest i e = elim i.data_fits [
  | inl other ↦
      subst (DataAt msg mid r.header)
        (ap (λ raw. record { header = r.header; raw = raw })
          (ap (take r.header.size) e ∙ take_at r.raw rest i.size))
        (plain other)
  | inr (is, n) ↦
      subst (DataAt msg mid r.header)
        (ap
          (λ size. record {
            header = record {
              name = r.header.name;
              kind = r.header.kind;
              class = r.header.class;
              ttl = r.header.ttl;
              size = size;
            };
            raw = r.raw;
          })
          (sym i.size))
        (expanded r.raw (mid + length r.raw) is (name_at msg mid r.raw rest n e)
          (let s = i.size in let w = i.header.size in omega arith))
]

some_header : (h : ResourceHeader) → 1 ≤ length (resource_header_bytes h)
unfolding resource_header_bytes be16
some_header h =
    let l = length-append h.name (be16 h.kind ++ (be16 h.class ++ (be32 h.ttl ++ be16 h.size))) in
    omega arith

resource_at :
    (msg : List ℕ) (off : ℕ) (r : Resource) (rest : List ℕ)
    → IsResource r
    → drop off msg ≡ resource_bytes r ++ rest
    → ResourceAt msg off r (off + length (resource_bytes r))
unfolding resource_bytes
resource_at msg off r rest i e =
    let h = resource_header_bytes r.header in
    let split : drop off msg ≡ h ++ (r.raw ++ rest) = e ∙ append_assoc h r.raw rest in
    let l = length-append h r.raw in
    let s = i.size in
    record {
      header = r.header;
      mid = off + length h;
      header_here = header_at msg off r.header (r.raw ++ rest) i.header split;
      data_here = data_at msg (off + length h) r rest i (drop_on msg off h (r.raw ++ rest) split);
      next = omega arith;
      inside =
          let b =
            ends_inside msg off (h ++ r.raw) rest e (let k = some_header r.header in omega arith) in
          omega arith;
    }

items_at :
    {S : Type 0} (At : ℕ → S → ℕ → Type 0) (bytes : S → List ℕ) (Ok : S → Type 0) (msg : List ℕ)
    (off : ℕ) (ss : List S) (rest : List ℕ)
    → ((off : ℕ) (s : S) (rest : List ℕ)
        → Ok s
        → drop off msg ≡ bytes s ++ rest
        → At off s (off + length (bytes s)))
    → AllOk Ok ss
    → drop off msg ≡ all_bytes bytes ss ++ rest
    → ItemsAt At off ss (off + length (all_bytes bytes ss))
unfolding all_bytes
items_at At bytes Ok msg off _ rest one no_entries e =
    subst (ItemsAt At off []) {x = off} {y = off + 0} (omega arith) (no_items off)
items_at At bytes Ok msg off _ rest one (and_ok {x = s} {xs = ss} o ok) e =
    let split = e ∙ append_assoc (bytes s) (all_bytes bytes ss) rest in
    let l = length-append (bytes s) (all_bytes bytes ss) in
    subst (ItemsAt At off (s ∷ ss)) {x = off + length (bytes s) + length (all_bytes bytes ss)}
      {y = off + length (bytes s ++ all_bytes bytes ss)} (omega arith)
      (and_item (one off s (all_bytes bytes ss ++ rest) o split) (
        items_at At bytes Ok msg (off + length (bytes s)) ss rest one ok
          (drop_on msg off (bytes s) (all_bytes bytes ss ++ rest) split)))

-- A message that can be sent: whole names, fields in their widths, records with the length of their
-- data, and at most 65535 bytes and entries in a section.
pub record IsMessage (m : Message) : Type 0 where
  pub questions : AllOk IsQuestion m.questions
  pub answers : AllOk IsResource m.answers
  pub authorities : AllOk IsResource m.authorities
  pub additionals : AllOk IsResource m.additionals
  pub qd : IsU16 (length m.questions)
  pub an : IsU16 (length m.answers)
  pub ns : IsU16 (length m.authorities)
  pub ar : IsU16 (length m.additionals)

pub message_at :
    (m : Message) (txid flags : ℕ)
    → IsMessage m
    → length (message_bytes m txid flags) < 2 ^ 16
    → MessageAt (message_bytes m txid flags) m (length (message_bytes m txid flags))
unfolding message_bytes header_bytes be16 qd_count an_count ns_count ar_count uint16
message_at m txid flags i h =
    let msg = message_bytes m txid flags in
    let qs = all_bytes question_bytes m.questions in
    let ans = all_bytes resource_bytes m.answers in
    let auth = all_bytes resource_bytes m.authorities in
    let add = all_bytes resource_bytes m.additionals in
    let l1 = length-append qs (ans ++ (auth ++ add)) in
    let l2 = length-append ans (auth ++ add) in
    let l3 = length-append auth add in
    let e1 : drop size_header msg ≡ qs ++ (ans ++ (auth ++ add)) = refl in
    let o1 = size_header + length qs in
    let e2 = drop_on msg size_header qs (ans ++ (auth ++ add)) e1 in
    let e3 = drop_on msg o1 ans (auth ++ add) e2 in
    let e4 : drop (o1 + length ans + length auth) msg ≡ add ++ [] =
      drop_on msg (o1 + length ans) auth add e3 ∙ sym (append-nil add) in
    record {
      short = h;
      header = omega arith;
      qd = omega (arith, i.qd);
      an = omega (arith, i.an);
      ns = omega (arith, i.ns);
      ar = omega (arith, i.ar);
      answers_at = o1;
      authorities_at = o1 + length ans;
      additionals_at = o1 + length ans + length auth;
      questions =
          items_at (QuestionAt msg) question_bytes IsQuestion msg size_header m.questions
            (ans ++ (auth ++ add)) (question_at msg) i.questions e1;
      answers =
          items_at (ResourceAt msg) resource_bytes IsResource msg o1 m.answers (auth ++ add)
            (resource_at msg) i.answers e2;
      authorities =
          items_at (ResourceAt msg) resource_bytes IsResource msg (o1 + length ans) m.authorities
            add (resource_at msg) i.authorities e3;
      additionals =
          subst (ItemsAt (ResourceAt msg) (o1 + length ans + length auth) m.additionals)
            {x = o1 + length ans + length auth + length add} {y = length msg} (omega arith)
            (items_at (ResourceAt msg) resource_bytes IsResource msg (o1 + length ans + length auth)
              m.additionals [] (resource_at msg) i.additionals e4);
    }

AllOk-map :
    {S : Type 0} (Ok Ok' : S → Type 0) (ss : List S)
    → ((s : S) → Ok s → Ok' s)
    → AllOk Ok ss
    → AllOk Ok' ss
AllOk-map Ok Ok' _ f no_entries = no_entries
AllOk-map Ok Ok' _ f (and_ok {x = s} {xs = ss} o ok) = and_ok (f s o) (AllOk-map Ok Ok' ss f ok)

pub named : (m : Message) → IsMessage m → IsNamed m
named m i = record {
  questions = AllOk-map IsQuestion _ m.questions (λ q o. some_name q.name o.name) i.questions;
  answers =
      AllOk-map IsResource _ m.answers (λ r o. some_name r.header.name o.header.name) i.answers;
  authorities =
      AllOk-map IsResource _ m.authorities (λ r o. some_name r.header.name o.header.name)
        i.authorities;
  additionals =
      AllOk-map IsResource _ m.additionals (λ r o. some_name r.header.name o.header.name)
        i.additionals;
}

first_all : {S : Type 0} (dst items : List S) → length items ≤ length dst → first dst items ≡ items
first_all dst items h = take_all (min (length dst) (length items)) items (omega arith)

-- A message of at most 65535 bytes, with whole names, fields in their widths and records with the
-- length of their data, is appended to an empty buffer without an error or a panic, and
-- `DecodeMessage` of the bytes, into slices with room for each section and fewer than 2^16 records,
-- gives the same message, the offset after the last byte, no error and no sign of an incomplete
-- message.
pub decode_message-append_message :
    (extra : ℕ → ℕ → ℕ) (m : Message) (b : Buf) (txid flags : ℕ) (q : List Question)
    (answers authorities additionals : List Resource)
    → IsMessage m
    → length (message_bytes m txid flags) < 2 ^ 16
    → b.bytes ≡ []
    → length m.questions ≤ length q
    → (length m.answers ≤ length answers) × (length answers < 2 ^ 16)
    → (length m.authorities ≤ length authorities) × (length authorities < 2 ^ 16)
    → (length m.additionals ≤ length additionals) × (length additionals < 2 ^ 16)
    → (b' : Buf) × (append_message extra m b txid flags ≡ ran (b', none))
      × (decode_message (some q) (some answers) (some authorities) (some additionals) b'.bytes
          ≡ visited (record { message = m; incomplete_but_ok = false }) (length b'.bytes) none)
decode_message-append_message extra m b txid flags q answers authorities additionals i h empty rq
      (ra, ua) (rb, ub) (rc, uc) =
    let msg = message_bytes m txid flags in
    let (b', sent, bytes) = append_message-message_bytes extra m b txid flags (named m i) h in
    let same : b'.bytes ≡ msg = bytes ∙ ap (λ c. c ++ msg) empty in
    let nq : ltb (length q) (length m.questions) ≡ false = ground arith in
    let na : ltb (length answers) (length m.answers) ≡ false = ground arith in
    let nb : ltb (length authorities) (length m.authorities) ≡ false = ground arith in
    let nc : ltb (length additionals) (length m.additionals) ≡ false = ground arith in
    (
      b',
      sent,
      rw
          (
            same,
            decode_message-MessageAt msg m (length msg) q answers authorities additionals
                (message_at m txid flags i h) ua ub uc,
            nq,
            na,
            nb,
            nc,
            first_all q m.questions rq,
            first_all answers m.answers ra,
            first_all authorities m.authorities rb,
            first_all additionals m.additionals rc,
          )
          refl,
    )
