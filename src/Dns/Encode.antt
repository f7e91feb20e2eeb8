-- ===== src/Dns/Encode.antt =====
-- dns/dns.go: `Message.Len` is the number of bytes that `Message.AppendTo` appends.
use lneto.Base.{
  ℕ, ◌+◌, ◌-◌, ◌%◌, ◌^◌, ◌≤◌, ◌<◌, ◌≡◌, refl, ap, ◌∙◌, inl, inr, true, false, none, List, [], ◌∷◌,
  ◌++◌, arith, ltb, leb, Bool-cases, leb→le, length, length-append, Ran, ran,
}
use lneto.Dns.Message.{Question, Resource}
use lneto.Dns.Parse.{size_header, Message}
use lneto.Dns.Append.{
  Buf, be16, be32, and_then, grown, name_len, question_len, len_resource, add_lens, len_resources,
  message_len, or_error, grow, append_question, append_resource, header_bytes, append_message,
}
use lneto.Dns.Bytes.{
  question_bytes, resource_header_bytes, resource_bytes, all_bytes, message_bytes, AllOk,
  grown-grown, append_question-grown, append_resource-grown, append_each-grown,
}

question_len_lem :
    (q : Question)
    → length (question_bytes q) < 2 ^ 16
    → question_len q ≡ ran (length (question_bytes q))
unfolding question_len name_len and_then question_bytes be16
question_len_lem q h =
    let l = length-append q.name (be16 q.kind ++ be16 q.class) in
    let short : ltb (2 ^ 16 - 1) (length q.name) ≡ false = ground arith in
    rw (short) (
      ap ran {x = (length q.name % 2 ^ 16 + 4) % 2 ^ 16} {y = length (question_bytes q)}
        (omega arith))

len_resource_lem :
    (r : Resource)
    → length (resource_bytes r) < 2 ^ 16
    → len_resource r ≡ ran (length (resource_bytes r))
unfolding len_resource name_len and_then resource_bytes resource_header_bytes be16 be32
len_resource_lem r h =
    let n = r.header.name in
    let l = length-append (resource_header_bytes r.header) r.raw in
    let k =
      length-append n (
        be16 r.header.kind ++ (be16 r.header.class ++ (be32 r.header.ttl ++ be16 r.header.size))) in
    let short : ltb (2 ^ 16 - 1) (length n) ≡ false = ground arith in
    rw (short) (
      ap ran {x = ((length n % 2 ^ 16 + 10) % 2 ^ 16 + length r.raw % 2 ^ 16) % 2 ^ 16}
        {y = length (resource_bytes r)} (omega arith))

add_lens_lem :
    {S : Type 0} (len : S → Ran ℕ) (bytes : S → List ℕ) (xs : List S) (l : ℕ)
    → ((x : S) → length (bytes x) < 2 ^ 16 → len x ≡ ran (length (bytes x)))
    → l + length (all_bytes bytes xs) < 2 ^ 16
    → add_lens len xs l ≡ ran (l + length (all_bytes bytes xs))
unfolding add_lens and_then all_bytes
add_lens_lem len bytes [] l one h = ap ran {x = l} {y = l + 0} (omega arith)
add_lens_lem len bytes (x ∷ xs) l one h =
    let s = length-append (bytes x) (all_bytes bytes xs) in
    let low : (l + length (bytes x)) % 2 ^ 16 ≡ l + length (bytes x) = omega arith in
    rw (one x (omega arith), low)
      (add_lens_lem len bytes xs (l + length (bytes x)) one (omega arith)
        ∙ ap ran {x = l + length (bytes x) + length (all_bytes bytes xs)}
            {y = l + length (bytes x ++ all_bytes bytes xs)} (omega arith))

-- `Message.Len` of a message that fits in 65535 bytes is the number of bytes that it has on the wire.
message_len-message_bytes :
    (m : Message) (txid flags : ℕ)
    → length (message_bytes m txid flags) < 2 ^ 16
    → message_len m ≡ ran (length (message_bytes m txid flags))
unfolding message_len len_resources and_then message_bytes header_bytes be16
message_len-message_bytes m txid flags h =
    let qs = all_bytes question_bytes m.questions in
    let ans = all_bytes resource_bytes m.answers in
    let auth = all_bytes resource_bytes m.authorities in
    let add = all_bytes resource_bytes m.additionals in
    let l1 = length-append qs (ans ++ (auth ++ add)) in
    let l2 = length-append ans (auth ++ add) in
    let l3 = length-append auth add in
    rw
      (
        add_lens_lem question_len question_bytes m.questions 0 question_len_lem (omega arith),
        add_lens_lem len_resource resource_bytes m.answers (0 + length qs) len_resource_lem
            (omega arith),
        add_lens_lem len_resource resource_bytes m.authorities (0 + length qs + length ans)
            len_resource_lem (omega arith),
        add_lens_lem len_resource resource_bytes m.additionals
            (0 + length qs + length ans + length auth) len_resource_lem (omega arith),
      )
      (ap ran {x = (size_header + (0 + length qs + length ans + length auth + length add)) % 2 ^ 16}
        {y = length (message_bytes m txid flags)} (omega arith))

-- Entries with names, which the root alone is not without.
pub record IsNamed (m : Message) : Type 0 where
  pub questions : AllOk (λ (q : Question). 1 ≤ length q.name) m.questions
  pub answers : AllOk (λ (r : Resource). 1 ≤ length r.header.name) m.answers
  pub authorities : AllOk (λ (r : Resource). 1 ≤ length r.header.name) m.authorities
  pub additionals : AllOk (λ (r : Resource). 1 ≤ length r.header.name) m.additionals

join4 :
    (b : Buf) (s t u v w : List ℕ)
    → grown (grown (grown (grown (grown b s) t) u) v) w ≡ grown b (s ++ (t ++ (u ++ (v ++ w))))
join4 b s t u v w =
    grown-grown (grown (grown (grown b s) t) u) v w
    ∙ grown-grown (grown (grown b s) t) u (v ++ w)
    ∙ grown-grown (grown b s) t (u ++ (v ++ w))
    ∙ grown-grown b s (t ++ (u ++ (v ++ w)))

module _ (extra : ℕ → ℕ → ℕ) where
  grow_room : (b : Buf) (n : ℕ) → n ≤ (grow extra b n).room
  unfolding grow
  grow_room b n = elim (Bool-cases (leb n b.room)) [
    | inl e ↦ rw (e) (leb→le n b.room e)
    | inr e ↦ rw (e) (omega arith)
  ]

  grow_bytes : (b : Buf) (n : ℕ) → (grow extra b n).bytes ≡ b.bytes
  unfolding grow
  grow_bytes b n = elim (Bool-cases (leb n b.room)) [ inl e ↦ rw (e) refl | inr e ↦ rw (e) refl ]

  append_message-grown :
      (m : Message) (b : Buf) (txid flags : ℕ)
      → IsNamed m
      → length (message_bytes m txid flags) < 2 ^ 16
      → append_message extra m b txid flags
        ≡ ran (
          grown (grow extra b (length (message_bytes m txid flags))) (message_bytes m txid flags),
          none,
        )
  unfolding append_message and_then or_error message_bytes header_bytes be16 grown
  append_message-grown m b txid flags named h =
      let n = length (message_bytes m txid flags) in
      let b0 = grow extra b n in
      let room : n ≤ b0.room = grow_room b n in
      let qs = all_bytes question_bytes m.questions in
      let ans = all_bytes resource_bytes m.answers in
      let auth = all_bytes resource_bytes m.authorities in
      let add = all_bytes resource_bytes m.additionals in
      let hd = header_bytes m txid flags in
      let l1 = length-append qs (ans ++ (auth ++ add)) in
      let l2 = length-append ans (auth ++ add) in
      let l3 = length-append auth add in
      let fits : leb size_header b0.room ≡ true = ground arith in
      let resources =
        λ (b : Buf) (rs : List Resource)
            (ok : AllOk (λ (r : Resource). 1 ≤ length r.header.name) rs)
            (fit : length (all_bytes resource_bytes rs) ≤ b.room).
          append_each-grown extra (append_resource extra) resource_bytes
            (λ (r : Resource). 1 ≤ length r.header.name) b rs
            (λ r b o room. append_resource-grown extra r b o room) ok fit in
      let b1 = grown b0 hd in
      let b2 = grown b1 qs in
      let b3 = grown b2 ans in
      let b4 = grown b3 auth in
      rw
        (
          message_len-message_bytes m txid flags h,
          fits,
          append_each-grown extra (append_question extra) question_bytes
              (λ (q : Question). 1 ≤ length q.name) b1 m.questions
              (λ q b o room. append_question-grown extra q b o room) named.questions (omega arith),
          resources b2 m.answers named.answers (omega arith),
          resources b3 m.authorities named.authorities (omega arith),
          resources b4 m.additionals named.additionals (omega arith),
        )
        (ap (λ b. ran (b, none)) (join4 b0 hd qs ans auth add))

  -- With names and in at most 65535 bytes, a message is appended whole and without an error: the buffer
  -- that `Message.Len` makes room in is never written past its capacity.
  pub append_message-message_bytes :
      (m : Message) (b : Buf) (txid flags : ℕ)
      → IsNamed m
      → length (message_bytes m txid flags) < 2 ^ 16
      → (b' : Buf) × (append_message extra m b txid flags ≡ ran (b', none))
        × (b'.bytes ≡ b.bytes ++ message_bytes m txid flags)
  unfolding grown
  append_message-message_bytes m b txid flags named h =
      let bytes = message_bytes m txid flags in
      (
        grown (grow extra b (length bytes)) bytes,
        append_message-grown m b txid flags named h,
        ap (λ c. c ++ bytes) (grow_bytes b (length bytes)),
      )
