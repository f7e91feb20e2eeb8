-- ===== src/Dns/Name.antt =====
-- dns/dns.go: `Name`, which is its only field, the bytes of the name on the wire.
use lneto.Base.{
  ℕ, ◌+◌, ◌-◌, ◌%◌, ◌^◌, Bool, not, ◌&&◌, none, some, List, [], ◌∷◌, ◌++◌, ltb, leb, ◌==◌,
  if◌then◌else◌, length, get_or, take, Ran, ran, panicked,
}
use lneto.Dns.{
  name_too_long, dot, has_byte, Visit, visited, out_of_range, out_of_fuel, visit_all_labels,
}

abbrev pub Name : Type 0
Name = List ℕ

unfoldable pub can_add_label : Name → List ℕ → Bool
unfolding has_byte
can_add_label n label =
    not (length label == 0)
    && leb (length label) 63
    && leb (length label + length n + 2) 255
    && not (get_or label (length label - 1) 0 == 0)
    && not (has_byte label dot)

unfoldable pub is_terminated : Name → Bool
is_terminated n = ltb 0 (length n) && get_or n (length n - 1) 0 == 0

unfoldable pub add_label : Name → List ℕ → Ran Name
unfolding can_add_label is_terminated
add_label n label =
    if can_add_label n label
    then ran (
        (if is_terminated n then take (length n - 1) n else n)
        ++ (length label % 2 ^ 8 ∷ (label ++ 0 ∷ [])))
    else panicked

unfoldable pub visit_add_label : Name → List ℕ → Name
visit_add_label n label = n ++ (length label % 2 ^ 8 ∷ label)

-- `Name.Decode`, with the name that it leaves.
unfoldable pub decode_name : List ℕ → ℕ → Visit Name
unfolding visit_all_labels visit_add_label
decode_name msg off = elim (visit_all_labels visit_add_label msg off []) [
  | visited n off' (some e) ↦ visited [] off' (some e)
  | visited n off' none ↦ visited (n ++ 0 ∷ []) off' none
  | out_of_range ↦ out_of_range
  | out_of_fuel ↦ out_of_fuel
]

-- `Name.VisitLabels`, which returns the error alone.
unfoldable pub visit_name {ℓ} : {S : Type ℓ} → (S → List ℕ → S) → Name → S → Visit S
unfolding visit_all_labels
visit_name fn n s =
    if ltb 255 (length n) then visited s 0 (some name_too_long) else visit_all_labels fn n 0 s

unfoldable pub append_dotted_label : List ℕ → List ℕ → List ℕ
append_dotted_label b label = (b ++ label) ++ dot ∷ []

-- `Name.AppendDottedTo`, which drops the error.
unfoldable pub append_dotted : Name → List ℕ → Visit (List ℕ)
unfolding visit_name append_dotted_label
append_dotted n b = visit_name append_dotted_label n b
