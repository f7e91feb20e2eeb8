-- ===== src/Dns/Skips.antt =====
-- dns/dns.go: questions and resources that are skipped, and those that there is room for.
use lneto.Base.{
  ℕ, zero, suc, ◌+◌, ◌-◌, ◌%◌, ◌^◌, ◌≤◌, ◌<◌, min, ◌≡◌, refl, sym, ap, ◌∙◌, true, false, none, some,
  List, arith, ltb, if◌then◌else◌, length, take, drop, length-take, length-drop,
}
use lneto.Dns.{Visit, visited, out_of_range}
use lneto.Dns.Name.{Name}
use lneto.Dns.Compressed.{visit_all_labels-NameAt}
use lneto.Dns.Message.{
  Question, Resource, then_read, decode_resource, skip_name, skip_question, skip_resource,
  decode_each, skip_each, and_skip, decode_to_cap_resources,
}
use lneto.Dns.Records.{
  NameHere, NameAt-inside, QuestionAt, ResourceAt, ItemsAt, no_items, and_item, decode_each-ItemsAt,
  decode_resource-ResourceAt,
}

skip_name-NameHere :
    (msg : List ℕ) (off fin : ℕ) (n : Name)
    → length msg < 2 ^ 16
    → NameHere msg off n fin
    → skip_name msg off ≡ visited tt fin none
unfolding skip_name
skip_name-NameHere msg off fin n u h =
    visit_all_labels-NameAt (λ s label. s) msg off fin h.hops tt h.labels u h.here h.few
      (NameAt-inside msg off fin h.hops h.labels h.here)

pub skip_question-QuestionAt :
    (msg : List ℕ) (off fin : ℕ) (q : Question)
    → length msg < 2 ^ 16
    → QuestionAt msg off q fin
    → skip_question msg off ≡ visited tt fin none
unfolding skip_question then_read
skip_question-QuestionAt msg off fin q u h =
    let i = h.inside in
    let e = h.next in
    let len : length msg % 2 ^ 16 ≡ length msg = omega arith in
    let low : (h.mid + 4) % 2 ^ 16 ≡ fin = omega arith in
    let enough : ltb (length msg) fin ≡ false = ground arith in
    rw
      (skip_question, skip_name-NameHere msg off h.mid q.name u h.name, then_read, len, low, enough)
      refl

skip_resource-ResourceAt :
    (msg : List ℕ) (off fin : ℕ) (r : Resource)
    → length msg < 2 ^ 16
    → ResourceAt msg off r fin
    → skip_resource msg off ≡ visited tt fin none
unfolding skip_resource then_read
skip_resource-ResourceAt msg off fin r u a =
    let h = a.header_here in
    let i = a.inside in
    let e = a.next in
    let f = h.next in
    let len : length msg % 2 ^ 16 ≡ length msg = omega arith in
    let at : (h.mid + 8) % 2 ^ 16 ≡ h.mid + 8 = omega arith in
    let read : ltb (length msg) (h.mid + 8 + 2) ≡ false = ground arith in
    let low : (h.mid + (a.header.size + 10) % 2 ^ 16) % 2 ^ 16 ≡ fin = omega arith in
    let enough : ltb (length msg) fin ≡ false = ground arith in
    rw
      (
        skip_resource,
        skip_name-NameHere msg off h.mid a.header.name u h.name,
        then_read,
        at,
        read,
        h.size,
        len,
        low,
        enough,
      )
      refl

-- A record that is skipped, in a message of at most 65535 bytes that ends less than ten bytes after
-- the name of the record, and a name that ends before offset 2^16 - 8: the length is read past the
-- end of the message, and the slice expression panics.
pub skip_resource-out_of_range :
    (msg : List ℕ) (off fin : ℕ) (n : Name)
    → length msg < 2 ^ 16
    → NameHere msg off n fin
    → length msg < fin + 10
    → fin + 8 < 2 ^ 16
    → skip_resource msg off ≡ out_of_range
unfolding skip_resource then_read
skip_resource-out_of_range msg off fin n u h cut low =
    let at : (fin + 8) % 2 ^ 16 ≡ fin + 8 = omega arith in
    let read : ltb (length msg) (fin + 8 + 2) ≡ true = ground arith in
    rw (skip_resource, skip_name-NameHere msg off fin n u h, then_read, at, read) refl

module _ {S : Type 0} (At : ℕ → S → ℕ → Type 0) where
  pub skip_each-ItemsAt :
      (skip : List ℕ → ℕ → Visit {0} Unit) (msg : List ℕ) (off fin : ℕ) (ss : List S)
      → ((off fin : ℕ) (s : S) → At off s fin → skip msg off ≡ visited tt fin none)
      → ItemsAt At off ss fin
      → skip_each skip (length ss) msg off ≡ visited tt fin none
  unfolding skip_each then_read
  skip_each-ItemsAt skip msg off _ _ one (no_items _) = refl
  skip_each-ItemsAt skip msg off fin _ one (and_item {mid = mid} {s = s} {ss = ss} a more) =
      rw (skip_each, one off mid s a, then_read) (skip_each-ItemsAt skip msg mid fin ss one more)

  -- The items up to the `n`th, and the others.
  pub ItemsAt-split :
      (n : ℕ) (off fin : ℕ) (ss : List S)
      → ItemsAt At off ss fin
      → (mid : ℕ) × ItemsAt At off (take n ss) mid × ItemsAt At mid (drop n ss) fin
  ItemsAt-split zero off fin ss items = (off, no_items off, items)
  ItemsAt-split (suc n) off _ _ (no_items _) = (off, no_items off, no_items off)
  ItemsAt-split (suc n) off fin _ (and_item {mid = mid} {ss = ss} a more) =
      let (mid', first, others) = ItemsAt-split n mid fin ss more in
      (mid', and_item a first, others)

  -- Items for which there is room are decoded, the others skipped.
  pub and_skip-ItemsAt :
      (decode : S → List ℕ → ℕ → Visit S) (skip : List ℕ → ℕ → Visit {0} Unit) (msg : List ℕ)
      (off fin n : ℕ) (ss dst : List S)
      → ((off fin : ℕ) (s s0 : S) → At off s fin → decode s0 msg off ≡ visited s fin none)
      → ((off fin : ℕ) (s : S) → At off s fin → skip msg off ≡ visited tt fin none)
      → ItemsAt At off ss fin
      → n ≤ length dst
      → n ≤ length ss
      → and_skip
          (decode_each decode (take n dst) msg off)
          (λ off. skip_each skip (length ss - n) msg off)
        ≡ visited (take n ss) fin none
  unfolding and_skip then_read
  and_skip-ItemsAt decode skip msg off fin n ss dst one pass items room some_left =
      let (mid, first, others) = ItemsAt-split n off fin ss items in
      let same : length (take n dst) ≡ length (take n ss) =
        let a = length-take n dst in let b = length-take n ss in omega arith in
      let left : length (drop n ss) ≡ length ss - n = length-drop n ss in
      let skipped : skip_each skip (length ss - n) msg mid ≡ visited tt fin none =
        ap (λ k. skip_each skip k msg mid) (sym left)
        ∙ skip_each-ItemsAt skip msg mid fin (drop n ss) pass others in
      rw
        (
          and_skip,
          decode_each-ItemsAt decode At msg off mid (take n ss) (take n dst) one same first,
          then_read,
          skipped,
        )
        refl

pub decode_to_cap_resources-ResourceAt :
    (msg : List ℕ) (off fin : ℕ) (rs dst : List Resource)
    → length msg < 2 ^ 16
    → length dst < 2 ^ 16
    → ItemsAt (ResourceAt msg) off rs fin
    → decode_to_cap_resources (some dst) msg (length rs) off
      ≡ visited (take (min (length dst) (length rs)) rs) fin none
unfolding decode_to_cap_resources
decode_to_cap_resources-ResourceAt msg off fin rs dst u w items =
    let n = min (length dst) (length rs) in
    let choice : (if ltb (length dst % 2 ^ 16) (length rs) then length dst % 2 ^ 16 else length rs)
        ≡ n =
      ground arith in
    rw (choice) (
      and_skip-ItemsAt (ResourceAt msg) decode_resource skip_resource msg off fin n rs dst
        (λ off fin r r0 a. decode_resource-ResourceAt msg off fin r r0 u a)
        (λ off fin r a. skip_resource-ResourceAt msg off fin r u a) items (omega arith)
        (omega arith))
