-- ===== src/Dns/Bytes.antt =====
-- dns/dns.go: the bytes that `AppendTo` appends, for which `Message.Len` makes room.
use lneto.Base.{
  ℕ, ◌≤◌, ◌≡◌, refl, sym, ap, ap₂, true, false, Option, none, List, [], ◌∷◌, ◌++◌, append-nil,
  append_assoc, arith, leb, ◌==◌, length, length-append, Ran, ran,
}
use lneto.Dns.{Error}
use lneto.Dns.Message.{Question, ResourceHeader, Resource}
use lneto.Dns.Parse.{Message}
use lneto.Dns.Append.{
  Buf, be16, be32, and_then, grown, append16, append32, or_error, append_each, append_bytes,
  append_name_to, append_question, append_header, append_resource, header_bytes,
}

unfoldable pub question_bytes : Question → List ℕ
unfolding be16
question_bytes q = q.name ++ (be16 q.kind ++ be16 q.class)

unfoldable pub resource_header_bytes : ResourceHeader → List ℕ
unfolding be16 be32
resource_header_bytes h = h.name ++ (be16 h.kind ++ (be16 h.class ++ (be32 h.ttl ++ be16 h.size)))

unfoldable pub resource_bytes : Resource → List ℕ
unfolding resource_header_bytes
resource_bytes r = resource_header_bytes r.header ++ r.raw

unfoldable pub all_bytes {ℓ} : {S : Type ℓ} → (S → List ℕ) → List S → List ℕ
all_bytes bytes [] = []
all_bytes bytes (x ∷ xs) = bytes x ++ all_bytes bytes xs

unfoldable pub message_bytes : Message → ℕ → ℕ → List ℕ
unfolding header_bytes all_bytes question_bytes resource_bytes
message_bytes m txid flags =
    header_bytes m txid flags
    ++ (all_bytes question_bytes m.questions
        ++ (all_bytes resource_bytes m.answers
            ++ (all_bytes resource_bytes m.authorities ++ all_bytes resource_bytes m.additionals)))

grown-nil : (b : Buf) → grown b [] ≡ b
unfolding grown
grown-nil b =
    ap₂ (λ bytes room. record { bytes = bytes; room = room }) (append-nil b.bytes) (omega arith)

pub grown-grown : (b : Buf) (xs ys : List ℕ) → grown (grown b xs) ys ≡ grown b (xs ++ ys)
unfolding grown
grown-grown b xs ys =
    ap₂ (λ bytes room. record { bytes = bytes; room = room }) (append_assoc b.bytes xs ys)
      (let l = length-append xs ys in omega arith)

-- What holds of every entry.
pub data AllOk {ℓ} {S : Type ℓ} (Ok : S → Type 0) : List S → Type ℓ where
  no_entries : AllOk Ok []
  and_ok : {x : S} {xs : List S} → Ok x → AllOk Ok xs → AllOk Ok (x ∷ xs)

module _ (extra : ℕ → ℕ → ℕ) where
  append_bytes-grown :
      (b : Buf) (xs : List ℕ) → length xs ≤ b.room → append_bytes extra b xs ≡ grown b xs
  unfolding append_bytes
  append_bytes-grown b xs h =
      let fits : leb (length xs) b.room ≡ true = ground arith in rw (fits) refl

  append16-grown : (b : Buf) (v : ℕ) → 2 ≤ b.room → append16 b v ≡ ran (grown b (be16 v))
  unfolding append16
  append16-grown b v h = let fits : leb 2 b.room ≡ true = ground arith in rw (fits) refl

  append32-grown : (b : Buf) (v : ℕ) → 4 ≤ b.room → append32 b v ≡ ran (grown b (be32 v))
  unfolding append32
  append32-grown b v h = let fits : leb 4 b.room ≡ true = ground arith in rw (fits) refl

  pub append_question-grown :
      (q : Question) (b : Buf)
      → 1 ≤ length q.name
      → length (question_bytes q) ≤ b.room
      → append_question extra q b ≡ ran (grown b (question_bytes q), none)
  unfolding append_question append_name_to or_error and_then question_bytes be16 grown
  append_question-grown q b h room =
      let l = length-append q.name (be16 q.kind ++ be16 q.class) in
      let named : (length q.name == 0) ≡ false = ground arith in
      let b1 = grown b q.name in
      let b2 = grown b1 (be16 q.kind) in
      rw
        (
          named,
          append_bytes-grown b q.name (omega arith),
          append16-grown b1 q.kind (omega arith),
          append16-grown b2 q.class (omega arith),
          grown-grown b1 (be16 q.kind) (be16 q.class),
          grown-grown b q.name (be16 q.kind ++ be16 q.class),
        )
        refl

  pub append_each-grown :
      {S : Type 0} (append : S → Buf → Ran (Buf × Option Error)) (bytes : S → List ℕ)
      (Ok : S → Type 0) (b : Buf) (xs : List S)
      → ((x : S) (b : Buf)
          → Ok x
          → length (bytes x) ≤ b.room
          → append x b ≡ ran (grown b (bytes x), none))
      → AllOk Ok xs
      → length (all_bytes bytes xs) ≤ b.room
      → append_each append xs b ≡ ran (grown b (all_bytes bytes xs), none)
  unfolding append_each or_error all_bytes grown
  append_each-grown append bytes Ok b [] one ok room = ap (λ b. ran (b, none)) (sym (grown-nil b))
  append_each-grown append bytes Ok b (x ∷ xs) one (and_ok o ok) room =
      let l = length-append (bytes x) (all_bytes bytes xs) in
      rw
        (
          one x b o (omega arith),
          append_each-grown append bytes Ok (grown b (bytes x)) xs one ok (omega arith),
          grown-grown b (bytes x) (all_bytes bytes xs),
        )
        refl

  pub append_header-grown :
      (h : ResourceHeader) (b : Buf)
      → 1 ≤ length h.name
      → length (resource_header_bytes h) ≤ b.room
      → append_header extra h b ≡ ran (grown b (resource_header_bytes h), none)
  unfolding append_header append_name_to or_error and_then resource_header_bytes be16 be32 grown
  append_header-grown h b some_name room =
      let l = length-append h.name (be16 h.kind ++ (be16 h.class ++ (be32 h.ttl ++ be16 h.size))) in
      let named : (length h.name == 0) ≡ false = ground arith in
      let b1 = grown b h.name in
      let b2 = grown b1 (be16 h.kind) in
      let b3 = grown b2 (be16 h.class) in
      let b4 = grown b3 (be32 h.ttl) in
      rw
        (
          named,
          append_bytes-grown b h.name (omega arith),
          append16-grown b1 h.kind (omega arith),
          append16-grown b2 h.class (omega arith),
          append32-grown b3 h.ttl (omega arith),
          append16-grown b4 h.size (omega arith),
          grown-grown b3 (be32 h.ttl) (be16 h.size),
          grown-grown b2 (be16 h.class) (be32 h.ttl ++ be16 h.size),
          grown-grown b1 (be16 h.kind) (be16 h.class ++ (be32 h.ttl ++ be16 h.size)),
          grown-grown b h.name (be16 h.kind ++ (be16 h.class ++ (be32 h.ttl ++ be16 h.size))),
        )
        refl

  pub append_resource-grown :
      (r : Resource) (b : Buf)
      → 1 ≤ length r.header.name
      → length (resource_bytes r) ≤ b.room
      → append_resource extra r b ≡ ran (grown b (resource_bytes r), none)
  unfolding append_resource or_error resource_bytes grown
  append_resource-grown r b some_name room =
      let l = length-append (resource_header_bytes r.header) r.raw in
      rw
        (
          append_header-grown r.header b some_name (omega arith),
          append_bytes-grown (grown b (resource_header_bytes r.header)) r.raw (omega arith),
          grown-grown b (resource_header_bytes r.header) r.raw,
        )
        refl
