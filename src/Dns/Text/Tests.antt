-- ===== src/Dns/Text/Tests.antt =====
-- dns/dns.go: names from text, at concrete texts.
use lneto.Base.{ℕ, ◌≡◌, refl, ◌↔◌, Bool, true, Option, none, some, List, [], ◌∷◌, arith, ran}
use lneto.Dns.{Error, cant_add_label, has_byte, visited}
use lneto.Dns.Name.{Name, append_dotted}
use lneto.Dns.Labels.{wire}
use lneto.Dns.Bytes.{AllOk, no_entries, and_ok}
use lneto.Dns.Layout.{IsName}
use lneto.Dns.Text.{new_name}
use lneto.Dns.Text.Whole.{new_name_total}
use lneto.Dns.Text.Equal.{equal_string, Prints, equal_string_lem}
use lneto.Dns.Text.Printed.{IsText, dotted, new_name-append_dotted}

-- `ab.c.`
abbrev ab_c : List ℕ
ab_c = 97 ∷ 98 ∷ 46 ∷ 99 ∷ 46 ∷ []

ab_c_run : new_name ab_c ≡ some (ran (2 ∷ 97 ∷ 98 ∷ 1 ∷ 99 ∷ 0 ∷ [], none))
unfolding new_name
ab_c_run = refl

-- `a..c`
two_dots_run : new_name (97 ∷ 46 ∷ 46 ∷ 99 ∷ []) ≡ some (ran ([], some cant_add_label))
unfolding new_name
two_dots_run = refl

new_name_total_example :
    (n : Name) × (err : Option Error) × (new_name ab_c ≡ some (ran (n, err)))
    × (err ≡ none → IsName n)
new_name_total_example = new_name_total ab_c

texts : AllOk IsText ((97 ∷ 98 ∷ []) ∷ (99 ∷ []) ∷ [])
unfolding has_byte
texts =
    and_ok
      (record {
        is_label = record { some_byte = omega arith; short = omega arith; no_dot = refl };
        ends = λ e. absurd (omega arith);
      })
      (and_ok
        (record {
          is_label = record { some_byte = omega arith; short = omega arith; no_dot = refl };
          ends = λ e. absurd (omega arith);
        })
        no_entries)

new_name-append_dotted_example :
    (off : ℕ) × (append_dotted (2 ∷ 97 ∷ 98 ∷ 1 ∷ 99 ∷ 0 ∷ []) [] ≡ visited ab_c off none)
    × (new_name ab_c ≡ some (ran (2 ∷ 97 ∷ 98 ∷ 1 ∷ 99 ∷ 0 ∷ [], none)))
unfolding wire dotted
new_name-append_dotted_example =
    new_name-append_dotted (97 ∷ 98 ∷ []) ((99 ∷ []) ∷ []) [] texts (omega arith)

equal_string_lem_example :
    ((b : Bool) × (equal_string (2 ∷ 97 ∷ 98 ∷ 1 ∷ 99 ∷ 0 ∷ []) (97 ∷ 98 ∷ 46 ∷ 99 ∷ []) ≡ some b))
    × ((equal_string (2 ∷ 97 ∷ 98 ∷ 1 ∷ 99 ∷ 0 ∷ []) (97 ∷ 98 ∷ 46 ∷ 99 ∷ []) ≡ some true)
        ↔ Prints ((97 ∷ 98 ∷ []) ∷ (99 ∷ []) ∷ []) (97 ∷ 98 ∷ 46 ∷ 99 ∷ []))
unfolding wire
equal_string_lem_example =
    equal_string_lem ((97 ∷ 98 ∷ []) ∷ (99 ∷ []) ∷ []) (2 ∷ 97 ∷ 98 ∷ 1 ∷ 99 ∷ 0 ∷ [])
      (97 ∷ 98 ∷ 46 ∷ 99 ∷ []) texts

-- `ab.c`
undotted_equal : equal_string (2 ∷ 97 ∷ 98 ∷ 1 ∷ 99 ∷ 0 ∷ []) (97 ∷ 98 ∷ 46 ∷ 99 ∷ []) ≡ some true
unfolding equal_string
undotted_equal = refl

-- `ab.c..`
two_dots_equal :
    equal_string (2 ∷ 97 ∷ 98 ∷ 1 ∷ 99 ∷ 0 ∷ []) (97 ∷ 98 ∷ 46 ∷ 99 ∷ 46 ∷ 46 ∷ []) ≡ some true
unfolding equal_string
two_dots_equal = refl
