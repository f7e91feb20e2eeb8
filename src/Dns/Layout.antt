-- ===== src/Dns/Layout.antt =====
-- dns/dns.go: the bytes that `AppendTo` appends are laid out as `Decode` reads them.
use lneto.Base.{
  ℕ, zero, suc, ◌+◌, ◌/◌, ◌%◌, ◌^◌, ◌≤◌, ◌≡◌, refl, sym, ap, ◌∙◌, subst, ◌≢◌, ◌⊎◌, List, [], ◌∷◌,
  ◌++◌, append_assoc, arith, IsU16, IsU32, length, get_or, drop, length-append, length-drop,
  drop-drop, drop_at,
}
use lneto.Tcp.Frame.{uint16, uint32}
use lneto.Dns.Name.{Name}
use lneto.Dns.Labels.{NameAt, wire, AreLabels}
use lneto.Dns.Compressed.{wire-NameAt}
use lneto.Dns.Message.{Question, ResourceHeader, Resource, cname}
use lneto.Dns.Records.{NameHere, QuestionAt}
use lneto.Dns.Append.{be16, be32}
use lneto.Dns.Bytes.{question_bytes}

-- A whole name: labels and the root, and no pointer.
pub record IsName (n : Name) : Type 0 where
  pub labels : List (List ℕ)
  pub are_labels : AreLabels labels
  pub whole : n ≡ wire labels ++ 0 ∷ []

pub record IsQuestion (q : Question) : Type 0 where
  pub name : IsName q.name
  pub kind : IsU16 q.kind
  pub class : IsU16 q.class

pub record IsHeader (h : ResourceHeader) : Type 0 where
  pub name : IsName h.name
  pub kind : IsU16 h.kind
  pub class : IsU16 h.class
  pub ttl : IsU32 h.ttl
  pub size : IsU16 h.size

-- The data of a CNAME record is a name.
pub record IsResource (r : Resource) : Type 0 where
  pub header : IsHeader r.header
  pub size : r.header.size ≡ length r.raw
  pub data_fits : (r.header.kind ≢ cname) ⊎ (r.header.kind ≡ cname) × IsName r.raw

-- After what stands at an offset.
pub drop_on :
    (msg : List ℕ) (off : ℕ) (xs ys : List ℕ)
    → drop off msg ≡ xs ++ ys
    → drop (off + length xs) msg ≡ ys
drop_on msg off xs ys e =
    sym (drop-drop (length xs) off msg) ∙ ap (drop (length xs)) e ∙ drop_at xs ys refl

pub ends_inside :
    (msg : List ℕ) (off : ℕ) (xs ys : List ℕ)
    → drop off msg ≡ xs ++ ys
    → 1 ≤ length xs
    → off + length xs ≤ length msg
ends_inside msg off xs ys e h =
    let s = ap length e in let d = length-drop off msg in let l = length-append xs ys in omega arith

pub get_or-drop : (xs : List ℕ) (i k d : ℕ) → get_or xs (i + k) d ≡ get_or (drop i xs) k d
get_or-drop xs zero k d = ap (λ j. get_or xs j d) {x = zero + k} {y = k} (omega arith)
get_or-drop [] (suc i) k d = refl
get_or-drop (x ∷ xs) (suc i) k d =
    ap (λ j. get_or (x ∷ xs) j d) {x = suc i + k} {y = suc (i + k)} (omega arith)
    ∙ get_or-drop xs i k d

pub uint16_at :
    (msg : List ℕ) (off v : ℕ) (rest : List ℕ)
    → IsU16 v
    → drop off msg ≡ be16 v ++ rest
    → uint16 msg off ≡ v
unfolding uint16 be16
uint16_at msg off v rest u e =
    let hi : get_or msg off 0 ≡ v / 2 ^ 8 % 2 ^ 8 =
      ap (λ j. get_or msg j 0) {x = off} {y = off + 0} (omega arith)
      ∙ get_or-drop msg off 0 0
      ∙ ap (λ xs. get_or xs 0 0) e in
    let lo : get_or msg (off + 1) 0 ≡ v % 2 ^ 8 =
      get_or-drop msg off 1 0 ∙ ap (λ xs. get_or xs 1 0) e in
    omega arith

pub uint32_at :
    (msg : List ℕ) (off v : ℕ) (rest : List ℕ)
    → IsU32 v
    → drop off msg ≡ be32 v ++ rest
    → uint32 msg off ≡ v
unfolding uint32 be32 be16
uint32_at msg off v rest u e =
    let hi = uint16_at msg off (v / 2 ^ 16 % 2 ^ 16) (be16 (v % 2 ^ 16) ++ rest) (omega arith) e in
    let lo =
      uint16_at msg (off + 2) (v % 2 ^ 16) rest (omega arith)
        (drop_on msg off (be16 (v / 2 ^ 16 % 2 ^ 16)) (be16 (v % 2 ^ 16) ++ rest) e) in
    omega arith

pub name_at :
    (msg : List ℕ) (off : ℕ) (n : Name) (rest : List ℕ)
    → IsName n
    → drop off msg ≡ n ++ rest
    → NameHere msg off n (off + length n)
name_at msg off n rest i e = record {
  labels = i.labels;
  hops = 0;
  here =
      subst (λ fin. NameAt msg off i.labels fin 0) {x = off + length (wire i.labels) + 1}
        {y = off + length n}
        (let l = ap length i.whole in let k = length-append (wire i.labels) (0 ∷ []) in omega arith)
        (wire-NameAt msg off i.labels rest i.are_labels
          (e ∙ ap (λ n. n ++ rest) i.whole ∙ append_assoc (wire i.labels) (0 ∷ []) rest));
  few = omega arith;
  expanded = i.whole;
}

pub some_name : (n : Name) → IsName n → 1 ≤ length n
some_name n i =
    let l = ap length i.whole in let k = length-append (wire i.labels) (0 ∷ []) in omega arith

pub question_at :
    (msg : List ℕ) (off : ℕ) (q : Question) (rest : List ℕ)
    → IsQuestion q
    → drop off msg ≡ question_bytes q ++ rest
    → QuestionAt msg off q (off + length (question_bytes q))
unfolding question_bytes be16
question_at msg off q rest i e =
    let k = be16 q.kind in
    let c = be16 q.class in
    let mid = off + length q.name in
    let split : drop off msg ≡ q.name ++ (k ++ (c ++ rest)) =
      e ∙ append_assoc q.name (k ++ c) rest in
    let fields : drop mid msg ≡ k ++ (c ++ rest) =
      drop_on msg off q.name (k ++ (c ++ rest)) split in
    let class = drop_on msg mid k (c ++ rest) fields in
    let l = length-append q.name (k ++ c) in
    record {
      mid = mid;
      name = name_at msg off q.name (k ++ (c ++ rest)) i.name split;
      kind = uint16_at msg mid q.kind (c ++ rest) i.kind fields;
      class = uint16_at msg (mid + 2) q.class rest i.class class;
      next = omega arith;
      inside = let b = ends_inside msg mid (k ++ c) rest fields (omega arith) in omega arith;
    }
