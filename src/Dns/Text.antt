-- ===== src/Dns/Text.antt =====
-- dns/dns.go: names from text. A string is the list of its bytes.
pub mod Whole
pub mod Printed
pub mod Equal
mod Tests
use lneto.Base.{
  ℕ, zero, suc, ◌+◌, ◌&&◌, Option, none, some, List, [], ◌∷◌, ◌==◌, if◌then◌else◌, length, get_or,
  Ran, ran, panicked,
}
use lneto.Dns.{Error, empty_domain_name, cant_add_label, dot}
use lneto.Dns.Name.{Name, can_add_label, add_label}

-- `domain[:idx]`, and `domain[idx+1:]` when there is a dot.
unfoldable pub cut : List ℕ → List ℕ × Option (List ℕ)
cut [] = ([], none)
cut (c ∷ cs) = if c == dot then ([], some cs) else (c ∷ (cut cs).0, (cut cs).1)

-- The end of a round: the name that `AddLabel` left, with what is left of the text.
unfoldable pub next_label_of :
    Ran Name
    → Option (List ℕ)
    → (Name → List ℕ → Option (Ran (Name × Option Error)))
    → Option (Ran (Name × Option Error))
next_label_of panicked rest loop = some panicked
next_label_of (ran n) none loop = some (ran (n, none))
next_label_of (ran n) (some rest) loop = loop n rest

-- The loop over the labels of the text; `none` stands for no rounds left.
unfoldable pub add_labels : ℕ → Name → List ℕ → Option (Ran (Name × Option Error))
unfolding cut can_add_label add_label next_label_of
add_labels zero n domain = none
add_labels (suc fuel) n domain =
    let loop = λ (n : Name) (rest : List ℕ). add_labels fuel n rest in
    if length domain == 0
    then some (ran (n, none))
    else if can_add_label n (cut domain).0
    then next_label_of (add_label n (cut domain).0) (cut domain).1 loop
    else some (ran ([], some cant_add_label))

-- `NewName`, with a round for each byte and one more.
unfoldable pub new_name : List ℕ → Option (Ran (Name × Option Error))
unfolding add_labels
new_name domain =
    if length domain == 0
    then some (ran ([], some empty_domain_name))
    else if length domain == 1 && get_or domain 0 0 == dot
    then some (ran (0 ∷ [], none))
    else add_labels (length domain + 1) [] domain

-- `MustNewName`
unfoldable pub must_new_name : List ℕ → Option (Ran Name)
unfolding new_name
must_new_name s = elim (new_name s) [
  | none ↦ none
  | some panicked ↦ some panicked
  | some (ran (n, none)) ↦ some (ran n)
  | some (ran (n, some e)) ↦ some panicked
]
