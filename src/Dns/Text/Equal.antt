-- ===== src/Dns/Text/Equal.antt =====
-- dns/dns.go: `Name.EqualString` against the printed name.
use lneto.Base.{
  ℕ, zero, suc, ◌+◌, ◌≤◌, ◌<◌, ◌≡◌, refl, sym, ap, ap₂, ◌∙◌, subst, ◌≢◌, ◌↔◌, ◌⊎◌, inl, inr, Bool,
  true, false, ◌||◌, Option, none, some, List, [], ◌∷◌, ◌++◌, append_assoc, arith, ltb, ◌==◌,
  if◌then◌else◌, Bool-cases, Option-cases, length, take, drop, length-append, length-drop, take_at,
  drop_at,
}
use lneto.Arp.{bytes_equal}
use lneto.Dns.{dot, has_byte}
use lneto.Dns.Name.{Name}
use lneto.Dns.Labels.{IsLabel, wire}
use lneto.Dns.Bytes.{AllOk, and_ok}
use lneto.Dns.Text.{cut}
use lneto.Dns.Text.Printed.{IsText, dotted, cut-dotted}

-- What `strings.Cut` leaves after the dot, or the empty string.
unfoldable pub after_dot : Option (List ℕ) → List ℕ
after_dot none = []
after_dot (some rest) = rest

-- `EqualString`, with a round for each byte and one more; `none` stands for no rounds left.
unfoldable pub equal_labels : ℕ → Name → List ℕ → Option Bool
unfolding cut after_dot bytes_equal
equal_labels zero n s = none
equal_labels (suc fuel) [] s = some false
equal_labels (suc fuel) (c ∷ rest) s =
    let later = equal_labels fuel (drop c rest) (after_dot (cut s).1) in
    if c == 0
    then some (length s == 0 || bytes_equal s (dot ∷ []))
    else if ltb (length rest) c
    then some false
    else if bytes_equal (cut s).0 (take c rest)
    then later
    else some false

unfoldable pub equal_string : Name → List ℕ → Option Bool
unfolding equal_labels
equal_string n s = equal_labels (length n + 1) n s

bytes_equal→≡ : (xs ys : List ℕ) → bytes_equal xs ys ≡ true → xs ≡ ys
unfolding bytes_equal
bytes_equal→≡ [] [] h = refl
bytes_equal→≡ [] (y ∷ ys) h = absurd (ground arith)
bytes_equal→≡ (x ∷ xs) [] h = absurd (ground arith)
bytes_equal→≡ (x ∷ xs) (y ∷ ys) h =
    let same : x ≡ y = ground arith in
    let more : bytes_equal xs ys ≡ true = ground arith in
    ap₂ (λ x xs. x ∷ xs) same (bytes_equal→≡ xs ys more)

bytes_equal_self : (xs : List ℕ) → bytes_equal xs xs ≡ true
unfolding bytes_equal
bytes_equal_self [] = refl
bytes_equal_self (x ∷ xs) =
    let e : (x == x) ≡ true = ground arith in rw (e, bytes_equal_self xs) refl

cut_here : (c : ℕ) (cs : List ℕ) → (c == dot) ≡ true → cut (c ∷ cs) ≡ ([], some cs)
unfolding cut
cut_here c cs h = rw (cut, h) refl

cut_later : (c : ℕ) (cs : List ℕ) → (c == dot) ≡ false → cut (c ∷ cs) ≡ (c ∷ (cut cs).0, (cut cs).1)
unfolding cut
cut_later c cs h = rw (cut, h) refl

some-injective : (a b : List ℕ) → some a ≡ some b → a ≡ b
some-injective a b h = ap (λ o. elim o [ none ↦ [] | some y ↦ y ]) h

-- A text is what was cut off, a dot and what is left, or the first alone.
cut_some : (s rest : List ℕ) → (cut s).1 ≡ some rest → s ≡ (cut s).0 ++ dot ∷ rest
unfolding cut
cut_some [] rest h = absurd (ground arith)
cut_some (c ∷ cs) rest h = elim (Bool-cases (c == dot)) [
  | inl d ↦
      let e = cut_here c cs d in
      let same : cs ≡ rest = some-injective cs rest (sym (ap (λ p. p.1) e) ∙ h) in
      let first : c ≡ dot = ground arith in
      ap₂ (λ c cs. c ∷ cs) first same ∙ ap (λ seg. seg ++ dot ∷ rest) (sym (ap (λ p. p.0) e))
  | inr d ↦
      let e = cut_later c cs d in
      ap (λ cs. c ∷ cs) (cut_some cs rest (sym (ap (λ p. p.1) e) ∙ h))
      ∙ ap (λ seg. seg ++ dot ∷ rest) (sym (ap (λ p. p.0) e))
]

cut_none : (s : List ℕ) → (cut s).1 ≡ none → s ≡ (cut s).0
unfolding cut
cut_none [] h = refl
cut_none (c ∷ cs) h = elim (Bool-cases (c == dot)) [
  | inl d ↦ absurd (let n = sym (ap (λ p. p.1) (cut_here c cs d)) ∙ h in ground arith)
  | inr d ↦
      let e = cut_later c cs d in
      ap (λ cs. c ∷ cs) (cut_none cs (sym (ap (λ p. p.1) e) ∙ h)) ∙ sym (ap (λ p. p.0) e)
]

-- A name in text without the dot at the end.
unfoldable pub joined : List (List ℕ) → List ℕ
joined [] = []
joined (l ∷ []) = l
joined (l ∷ k ∷ ls) = l ++ dot ∷ joined (k ∷ ls)

-- The text is the name with a dot after each label, or with dots between labels, or the first with
-- one dot more.
pub data Prints (ls : List (List ℕ)) (s : List ℕ) : Type 0 where
  whole : s ≡ dotted ls → Prints ls s
  bare : s ≡ joined ls → Prints ls s
  extra : s ≡ dotted ls ++ dot ∷ [] → Prints ls s

longer :
    (l : List ℕ) (ls : List (List ℕ)) (s rest : List ℕ)
    → s ≡ l ++ dot ∷ rest
    → Prints ls rest
    → Prints (l ∷ ls) s
unfolding dotted joined
longer l ls s rest e (whole h) = whole (e ∙ ap (λ r. l ++ dot ∷ r) h)
longer l [] s rest e (bare h) = whole (e ∙ ap (λ r. l ++ dot ∷ r) h)
longer l (k ∷ ls) s rest e (bare h) = bare (e ∙ ap (λ r. l ++ dot ∷ r) h)
longer l ls s rest e (extra h) =
    extra (e ∙ ap (λ r. l ++ dot ∷ r) h ∙ sym (append_assoc l (dot ∷ dotted ls) (dot ∷ [])))

length-joined : (l : List ℕ) (ls : List (List ℕ)) → length l ≤ length (joined (l ∷ ls))
unfolding joined
length-joined l [] = omega arith
length-joined l (k ∷ ls) = let n = length-append l (dot ∷ joined (k ∷ ls)) in omega arith

no_dot_left :
    (s : List ℕ) (ls : List (List ℕ))
    → AllOk IsText ls
    → Prints ls []
    → (cut s).1 ≡ none
    → Prints ((cut s).0 ∷ ls) s
unfolding dotted joined
no_dot_left s [] t p h = bare (cut_none s h)
no_dot_left s (l ∷ ls) (and_ok i t) (whole e) h =
    let n = ap length e in let k = length-append l (dot ∷ dotted ls) in absurd (omega arith)
no_dot_left s (l ∷ ls) (and_ok i t) (bare e) h =
    let n = ap length e in
    let k = length-joined l ls in let b = i.is_label.some_byte in absurd (omega arith)
no_dot_left s (l ∷ ls) (and_ok i t) (extra e) h =
    let n = ap length e in
    let k = length-append l (dot ∷ dotted ls) in
    let j = length-append (l ++ dot ∷ dotted ls) (dot ∷ []) in absurd (omega arith)

empty : (s : List ℕ) → length s ≡ 0 → s ≡ []
empty [] h = refl
empty (c ∷ cs) h = absurd (omega arith)

at_root : (s : List ℕ) → (length s == 0 || bytes_equal s (dot ∷ [])) ≡ true → Prints [] s
unfolding dotted
at_root s h = elim (Bool-cases (length s == 0)) [
  | inl e ↦ whole (empty s (ground arith))
  | inr n ↦ extra (bytes_equal→≡ s (dot ∷ []) (ground arith))
]

label_round :
    (fuel : ℕ) (l tail s : List ℕ)
    → IsLabel l
    → equal_labels (suc fuel) (length l ∷ (l ++ tail)) s ≡ (
        if bytes_equal (cut s).0 l
        then equal_labels fuel tail (after_dot (cut s).1)
        else some false)
unfolding equal_labels
label_round fuel l tail s i =
    let byte = i.some_byte in
    let size = length-append l tail in
    let text : (length l == 0) ≡ false = ground arith in
    let fits : ltb (length (l ++ tail)) (length l) ≡ false = ground arith in
    rw (equal_labels, text, fits, take_at l tail refl, drop_at l tail refl) refl

out_of_rounds : (n : Name) (s : List ℕ) → equal_labels zero n s ≢ some true
unfolding equal_labels
out_of_rounds n s e = ground arith

root_round :
    (fuel : ℕ) (s : List ℕ)
    → equal_labels (suc fuel) (0 ∷ []) s ≡ some true
    → (length s == 0 || bytes_equal s (dot ∷ [])) ≡ true
unfolding equal_labels
root_round fuel s e = ap (λ o. elim o [ none ↦ true | some b ↦ b ]) e

split_label :
    (fuel : ℕ) (l : List ℕ) (ls : List (List ℕ)) (s : List ℕ)
    → IsLabel l
    → equal_labels (suc fuel) (wire (l ∷ ls) ++ 0 ∷ []) s ≡ (
        if bytes_equal (cut s).0 l
        then equal_labels fuel (wire ls ++ 0 ∷ []) (after_dot (cut s).1)
        else some false)
unfolding wire
split_label fuel l ls s i =
    ap (λ x. equal_labels (suc fuel) (length l ∷ x) s) (append_assoc l (wire ls) (0 ∷ []))
    ∙ label_round fuel l (wire ls ++ 0 ∷ []) s i

taken :
    (b : Bool) (o : Option Bool)
    → (if b then o else some false) ≡ some true
    → (b ≡ true) × (o ≡ some true)
taken true o h = (refl, h)
taken false o h = absurd (ground arith)

after_label :
    (l : List ℕ) (ls : List (List ℕ)) (s : List ℕ)
    → AllOk IsText ls
    → (cut s).0 ≡ l
    → Prints ls (after_dot (cut s).1)
    → Prints (l ∷ ls) s
unfolding after_dot
after_label l ls s t seg p = elim (Option-cases (cut s).1) [
  | inl n ↦
      subst (λ l. Prints (l ∷ ls) s) seg
        (no_dot_left s ls t (subst (λ o. Prints ls (after_dot o)) n p) n)
  | inr (r, n) ↦
      longer l ls s r (cut_some s r n ∙ ap (λ seg. seg ++ dot ∷ r) seg)
        (subst (λ o. Prints ls (after_dot o)) n p)
]

equal_labels-Prints :
    (fuel : ℕ) (ls : List (List ℕ)) (s : List ℕ)
    → AllOk IsText ls
    → equal_labels fuel (wire ls ++ 0 ∷ []) s ≡ some true
    → Prints ls s
unfolding wire
equal_labels-Prints zero ls s t e = absurd (out_of_rounds (wire ls ++ 0 ∷ []) s e)
equal_labels-Prints (suc fuel) [] s t e = at_root s (root_round fuel s e)
equal_labels-Prints (suc fuel) (l ∷ ls) s (and_ok i t) e =
    let (same, more) =
      taken (bytes_equal (cut s).0 l) _ (sym (split_label fuel l ls s i.is_label) ∙ e) in
    after_label l ls s t (bytes_equal→≡ (cut s).0 l same)
      (equal_labels-Prints fuel ls (after_dot (cut s).1) t more)

cut_alone : (l : List ℕ) → has_byte l dot ≡ false → cut l ≡ (l, none)
unfolding cut has_byte
cut_alone [] h = refl
cut_alone (c ∷ cs) h =
    let here : (c == dot) ≡ false = ground arith in
    let later : has_byte cs dot ≡ false = ground arith in rw (here, cut_alone cs later) refl

-- A text that begins with the label is followed up after the dot.
step_dot :
    (fuel : ℕ) (l : List ℕ) (ls : List (List ℕ)) (rest : List ℕ)
    → IsLabel l
    → equal_labels fuel (wire ls ++ 0 ∷ []) rest ≡ some true
    → equal_labels (suc fuel) (wire (l ∷ ls) ++ 0 ∷ []) (l ++ dot ∷ rest) ≡ some true
unfolding after_dot
step_dot fuel l ls rest i e =
    split_label fuel l ls (l ++ dot ∷ rest) i
    ∙ rw (cut-dotted l rest i.no_dot, bytes_equal_self l) e

step_end :
    (fuel : ℕ) (l : List ℕ) (ls : List (List ℕ))
    → IsLabel l
    → equal_labels fuel (wire ls ++ 0 ∷ []) [] ≡ some true
    → equal_labels (suc fuel) (wire (l ∷ ls) ++ 0 ∷ []) l ≡ some true
unfolding after_dot
step_end fuel l ls i e = split_label fuel l ls l i ∙ rw (cut_alone l i.no_dot, bytes_equal_self l) e

root_equal :
    (fuel : ℕ) (s : List ℕ)
    → (s ≡ []) ⊎ (s ≡ dot ∷ [])
    → equal_labels (suc fuel) (0 ∷ []) s ≡ some true
unfolding equal_labels bytes_equal
root_equal fuel s (inl e) = rw e refl
root_equal fuel s (inr e) = rw e refl

Prints-equal_labels :
    (fuel : ℕ) (ls : List (List ℕ)) (s : List ℕ)
    → AllOk IsText ls
    → length ls < fuel
    → Prints ls s
    → equal_labels fuel (wire ls ++ 0 ∷ []) s ≡ some true
unfolding wire dotted joined
Prints-equal_labels zero ls s t h p = absurd (omega arith)
Prints-equal_labels (suc fuel) [] s t h (whole e) = root_equal fuel s (inl e)
Prints-equal_labels (suc fuel) [] s t h (bare e) = root_equal fuel s (inl e)
Prints-equal_labels (suc fuel) [] s t h (extra e) = root_equal fuel s (inr e)
Prints-equal_labels (suc fuel) (l ∷ ls) s (and_ok i t) h (whole e) = rw e (
    step_dot fuel l ls (dotted ls) i.is_label
      (Prints-equal_labels fuel ls (dotted ls) t (omega arith) (whole refl)))
Prints-equal_labels (suc fuel) (l ∷ []) s (and_ok i t) h (bare e) =
    rw e
      (step_end fuel l [] i.is_label (Prints-equal_labels fuel [] [] t (omega arith) (whole refl)))
Prints-equal_labels (suc fuel) (l ∷ k ∷ ls) s (and_ok i t) h (bare e) = rw e (
    step_dot fuel l (k ∷ ls) (joined (k ∷ ls)) i.is_label
      (Prints-equal_labels fuel (k ∷ ls) (joined (k ∷ ls)) t (omega arith) (bare refl)))
Prints-equal_labels (suc fuel) (l ∷ ls) s (and_ok i t) h (extra e) =
    rw (e ∙ append_assoc l (dot ∷ dotted ls) (dot ∷ [])) (
      step_dot fuel l ls (dotted ls ++ dot ∷ []) i.is_label
        (Prints-equal_labels fuel ls (dotted ls ++ dot ∷ []) t (omega arith) (extra refl)))

Answers : Option Bool → Type 0
Answers o = (b : Bool) × (o ≡ some b)

Answers-if : (c : Bool) (o p : Option Bool) → Answers o → Answers p → Answers (if c then o else p)
unfolding Answers
Answers-if true o p x y = x
Answers-if false o p x y = y

equal_labels_total :
    (fuel : ℕ) (n : Name) (s : List ℕ) → length n < fuel → Answers (equal_labels fuel n s)
unfolding equal_labels Answers
equal_labels_total zero n s h = absurd (omega arith)
equal_labels_total (suc fuel) [] s h = (false, refl)
equal_labels_total (suc fuel) (c ∷ rest) s h =
    let d = length-drop c rest in
    Answers-if (c == 0) _ _ ((length s == 0 || bytes_equal s (dot ∷ [])), refl)
      (Answers-if (ltb (length rest) c) _ _ (false, refl)
        (Answers-if (bytes_equal (cut s).0 (take c rest)) _ _
          (equal_labels_total fuel (drop c rest) (after_dot (cut s).1) (omega arith))
          (false, refl)))

labels-few : (ls : List (List ℕ)) → length ls ≤ length (wire ls)
unfolding wire
labels-few [] = omega arith
labels-few (l ∷ ls) = let f = labels-few ls in let k = length-append l (wire ls) in omega arith

-- `EqualString` answers for every name and text. For a name whose labels are without a dot and end
-- in a byte other than 0 it answers true for exactly these texts: the name with a dot after each
-- label, as `AppendDottedTo` prints it; the name with dots between the labels only; and the printed
-- name with one dot more.
pub equal_string_lem :
    (ls : List (List ℕ)) (n : Name) (s : List ℕ)
    → AllOk IsText ls
    → ((b : Bool) × (equal_string n s ≡ some b))
      × ((equal_string (wire ls ++ 0 ∷ []) s ≡ some true) ↔ Prints ls s)
unfolding equal_string Answers
equal_string_lem ls n s t =
    let f = labels-few ls in
    let k = length-append (wire ls) (0 ∷ []) in
    (
      equal_labels_total (length n + 1) n s (omega arith),
      (
        equal_labels-Prints (length (wire ls ++ 0 ∷ []) + 1) ls s t,
        Prints-equal_labels (length (wire ls ++ 0 ∷ []) + 1) ls s t (omega arith),
      ),
    )
