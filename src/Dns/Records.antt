-- ===== src/Dns/Records.antt =====
-- dns/dns.go: what a question and a resource in a message stand for, and their decoding.
use lneto.Base.{
  ℕ, ◌+◌, ◌-◌, ◌%◌, ◌^◌, ◌≤◌, ◌<◌, ◌≡◌, refl, sym, ap, ◌∙◌, ◌≢◌, true, false, none, List, [], ◌∷◌,
  ◌++◌, arith, ltb, ◌==◌, if◌then◌else◌, IsU16, length, take, drop, length-drop,
}
use lneto.Tcp.Frame.{uint16, uint32}
use lneto.Dns.{Visit, visited, max_ptr}
use lneto.Dns.Name.{Name, decode_name}
use lneto.Dns.Labels.{NameAt, root, label, pointer, wire}
use lneto.Dns.Compressed.{decode_name-NameAt}
use lneto.Dns.Message.{
  Question, ResourceHeader, Resource, cname, then_read, decode_question, decode_header, plain_data,
  cname_data, decode_resource, decode_each,
}

-- The name at an offset, through at most ten pointers, and the offset after it.
pub record NameHere (msg : List ℕ) (off : ℕ) (n : Name) (fin : ℕ) : Type 0 where
  pub labels : List (List ℕ)
  pub hops : ℕ
  pub here : NameAt msg off labels fin hops
  pub few : hops ≤ max_ptr
  pub expanded : n ≡ wire labels ++ 0 ∷ []

before_end : (msg : List ℕ) (off b : ℕ) (rest : List ℕ) → drop off msg ≡ b ∷ rest → off ≤ length msg
before_end msg off b rest e = let s = ap length e in let d = length-drop off msg in omega arith

pub NameAt-inside :
    (msg : List ℕ) (off fin hops : ℕ) (ls : List (List ℕ))
    → NameAt msg off ls fin hops
    → off ≤ length msg
NameAt-inside msg off _ _ _ (root rest e) = before_end msg off 0 rest e
NameAt-inside msg off fin hops _ (label l rest i e n) = before_end msg off (length l) (l ++ rest) e
NameAt-inside msg off _ _ ls (pointer hi lo rest h l nz e i n) =
    before_end msg off (0xc0 + hi) (lo ∷ rest) e

decode_name-NameHere :
    (msg : List ℕ) (off fin : ℕ) (n : Name)
    → length msg < 2 ^ 16
    → NameHere msg off n fin
    → decode_name msg off ≡ visited n fin none
decode_name-NameHere msg off fin n u h =
    decode_name-NameAt msg off fin h.hops h.labels u h.here h.few
      (NameAt-inside msg off fin h.hops h.labels h.here)
    ∙ ap (λ n. visited n fin none) (sym h.expanded)

pub record QuestionAt (msg : List ℕ) (off : ℕ) (q : Question) (fin : ℕ) : Type 0 where
  pub mid : ℕ
  pub name : NameHere msg off q.name mid
  pub kind : uint16 msg mid ≡ q.kind
  pub class : uint16 msg (mid + 2) ≡ q.class
  pub next : mid + 4 ≡ fin
  pub inside : fin ≤ length msg

pub decode_question-QuestionAt :
    (msg : List ℕ) (off fin : ℕ) (q q0 : Question)
    → length msg < 2 ^ 16
    → QuestionAt msg off q fin
    → decode_question q0 msg off ≡ visited q fin none
unfolding decode_question then_read
decode_question-QuestionAt msg off fin q q0 u h =
    let i = h.inside in
    let e = h.next in
    let len : length msg % 2 ^ 16 ≡ length msg = omega arith in
    let low : (h.mid + 4) % 2 ^ 16 ≡ fin = omega arith in
    let enough : ltb (length msg) fin ≡ false = ground arith in
    rw
      (
        decode_question,
        decode_name-NameHere msg off h.mid q.name u h.name,
        then_read,
        len,
        low,
        e,
        enough,
        h.kind,
        h.class,
      )
      refl

pub record HeaderAt (msg : List ℕ) (off : ℕ) (h : ResourceHeader) (fin : ℕ) : Type 0 where
  pub mid : ℕ
  pub name : NameHere msg off h.name mid
  pub kind : uint16 msg mid ≡ h.kind
  pub class : uint16 msg (mid + 2) ≡ h.class
  pub ttl : uint32 msg (mid + 4) ≡ h.ttl
  pub size : uint16 msg (mid + 8) ≡ h.size
  pub next : mid + 10 ≡ fin
  pub inside : fin ≤ length msg

decode_header-HeaderAt :
    (msg : List ℕ) (off fin : ℕ) (h h0 : ResourceHeader)
    → length msg < 2 ^ 16
    → HeaderAt msg off h fin
    → decode_header h0 msg off ≡ visited h fin none
unfolding decode_header then_read
decode_header-HeaderAt msg off fin h h0 u a =
    let i = a.inside in
    let e = a.next in
    let len : length msg % 2 ^ 16 ≡ length msg = omega arith in
    let low : (a.mid + 10) % 2 ^ 16 ≡ fin = omega arith in
    let enough : ltb (length msg) fin ≡ false = ground arith in
    rw
      (
        decode_header,
        decode_name-NameHere msg off a.mid h.name u a.name,
        then_read,
        len,
        low,
        e,
        enough,
        a.kind,
        a.class,
        a.ttl,
        a.size,
      )
      refl

-- The data of a record: as it stands, or the name that it is, written out.
pub data DataAt (msg : List ℕ) (off : ℕ) (h : ResourceHeader) : Resource → Type 0 where
  plain :
      h.kind ≢ cname → DataAt msg off h (record { header = h; raw = take h.size (drop off msg) })
  expanded :
      (n : Name) (fin : ℕ)
      → h.kind ≡ cname
      → NameHere msg off n fin
      → IsU16 (length n)
      → DataAt msg off h (record {
        header = record {
          name = h.name;
          kind = h.kind;
          class = h.class;
          ttl = h.ttl;
          size = length n;
        };
        raw = n;
      })

pub record ResourceAt (msg : List ℕ) (off : ℕ) (r : Resource) (fin : ℕ) : Type 0 where
  pub header : ResourceHeader
  pub mid : ℕ
  pub header_here : HeaderAt msg off header mid
  pub data_here : DataAt msg mid header r
  pub next : mid + header.size ≡ fin
  pub inside : fin ≤ length msg

data_end :
    (msg : List ℕ) (mid : ℕ) (h : ResourceHeader) (r : Resource)
    → length msg < 2 ^ 16
    → DataAt msg mid h r
    → (if h.kind == cname then cname_data h msg mid (decode_name msg mid) else plain_data h msg mid)
      ≡ visited r ((mid + h.size) % 2 ^ 16) none
unfolding cname_data plain_data
data_end msg mid h _ u (plain ne) =
    let other : (h.kind == cname) ≡ false = ground arith in rw (other) refl
data_end msg mid h _ u (expanded n fin e here w) =
    let is : (h.kind == cname) ≡ true = ground arith in
    let low : length n % 2 ^ 16 ≡ length n = omega arith in
    rw (is, decode_name-NameHere msg mid fin n u here, cname_data, low) refl

pub decode_resource-ResourceAt :
    (msg : List ℕ) (off fin : ℕ) (r r0 : Resource)
    → length msg < 2 ^ 16
    → ResourceAt msg off r fin
    → decode_resource r0 msg off ≡ visited r fin none
unfolding decode_resource then_read
decode_resource-ResourceAt msg off fin r r0 u a =
    let h = a.header in
    let i = a.inside in
    let e = a.next in
    let left : length (drop a.mid msg) % 2 ^ 16 ≡ length msg - a.mid =
      let d = length-drop a.mid msg in omega arith in
    let enough : ltb (length msg - a.mid) h.size ≡ false = ground arith in
    let low : (a.mid + h.size) % 2 ^ 16 ≡ fin = omega arith in
    rw
      (
        decode_resource,
        decode_header-HeaderAt msg off a.mid h r0.header u a.header_here,
        then_read,
        left,
        enough,
      )
      (data_end msg a.mid h r u a.data_here ∙ ap (λ k. visited r k none) low)

-- Items that stand one after another.
pub data ItemsAt {ℓ} {S : Type ℓ} (At : ℕ → S → ℕ → Type 0) : ℕ → List S → ℕ → Type ℓ where
  no_items : (off : ℕ) → ItemsAt At off [] off
  and_item :
      {off mid fin : ℕ} {s : S} {ss : List S}
      → At off s mid
      → ItemsAt At mid ss fin
      → ItemsAt At off (s ∷ ss) fin

pub decode_each-ItemsAt :
    {S : Type 0} (decode : S → List ℕ → ℕ → Visit S) (At : ℕ → S → ℕ → Type 0) (msg : List ℕ)
    (off fin : ℕ) (ss dst : List S)
    → ((off fin : ℕ) (s s0 : S) → At off s fin → decode s0 msg off ≡ visited s fin none)
    → length dst ≡ length ss
    → ItemsAt At off ss fin
    → decode_each decode dst msg off ≡ visited ss fin none
unfolding decode_each then_read
decode_each-ItemsAt decode At msg off _ _ [] one len (no_items _) = refl
decode_each-ItemsAt decode At msg off _ _ (d ∷ ds) one len (no_items _) = absurd (omega arith)
decode_each-ItemsAt decode At msg off fin _ [] one len (and_item a more) = absurd (omega arith)
decode_each-ItemsAt decode At msg off fin _ (d ∷ ds) one len
      (and_item {mid = mid} {s = s} {ss = ss} a more) =
    rw
      (
        decode_each,
        one off mid s d a,
        then_read,
        decode_each-ItemsAt decode At msg mid fin ss ds one (omega arith) more,
      )
      refl
