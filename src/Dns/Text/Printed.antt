-- ===== src/Dns/Text/Printed.antt =====
-- dns/dns.go: `NewName` reads back what `AppendDottedTo` prints.
use lneto.Base.{
  ℕ, zero, suc, ◌+◌, ◌-◌, ◌≤◌, ◌<◌, ◌≡◌, refl, sym, ap, ◌∙◌, subst, ◌≢◌, true, false, none, some,
  List, [], ◌∷◌, ◌++◌, append-nil, append_assoc, arith, ltb, leb, ◌==◌, length, get_or,
  length-append, ran,
}
use lneto.Dns.{dot, has_byte, visited}
use lneto.Dns.Name.{Name, can_add_label, visit_name, append_dotted_label, append_dotted}
use lneto.Dns.Labels.{IsLabel, wire, AreLabels, no_labels, and_label}
use lneto.Dns.Compressed.{fold_labels, visit_all_labels-NameAt, wire-NameAt}
use lneto.Dns.Bytes.{AllOk, no_entries, and_ok}
use lneto.Dns.Text.{cut, next_label_of, add_labels, new_name}
use lneto.Dns.Text.Whole.{so_far, add_label-so_far, wire-append}

-- A name as `AppendDottedTo` prints it: each label and a dot.
unfoldable pub dotted : List (List ℕ) → List ℕ
dotted [] = []
dotted (l ∷ ls) = l ++ dot ∷ dotted ls

-- A label that `NewName` takes: the last byte is not 0.
pub record IsText (label : List ℕ) : Type 0 where
  pub is_label : IsLabel label
  pub ends : get_or label (length label - 1) 0 ≢ 0

pub cut-dotted : (l rest : List ℕ) → has_byte l dot ≡ false → cut (l ++ dot ∷ rest) ≡ (l, some rest)
unfolding cut has_byte
cut-dotted [] rest h = refl
cut-dotted (c ∷ cs) rest h =
    let here : (c == dot) ≡ false = ground arith in
    let later : has_byte cs dot ≡ false = ground arith in rw (here, cut-dotted cs rest later) refl

length-so_far : (ls : List (List ℕ)) → length (so_far ls) ≤ length (wire ls) + 1
unfolding so_far wire
length-so_far [] = omega arith
length-so_far (l ∷ ls) = let k = length-append (wire (l ∷ ls)) (0 ∷ []) in omega arith

length-wire-and :
    (ls : List (List ℕ)) (l : List ℕ) (more : List (List ℕ))
    → length (wire (ls ++ l ∷ more)) ≡ length (wire ls) + (1 + length l) + length (wire more)
unfolding wire
length-wire-and ls l more =
    let a = ap length (wire-append ls (l ∷ more)) in
    let b = length-append (wire ls) (wire (l ∷ more)) in
    let c = length-append l (wire more) in omega arith

can_add :
    (n : Name) (l : List ℕ) → IsText l → length l + length n + 2 ≤ 255 → can_add_label n l ≡ true
unfolding can_add_label
can_add n l t h =
    let i = t.is_label in
    let byte = i.some_byte in
    let short = i.short in
    let a : (length l == 0) ≡ false = ground arith in
    let b : leb (length l) 63 ≡ true = ground arith in
    let c : leb (length l + length n + 2) 255 ≡ true = ground arith in
    let d : (get_or l (length l - 1) 0 == 0) ≡ false = let e = t.ends in ground arith in
    rw (a, b, c, d, i.no_dot) refl

add_labels-dotted :
    (fuel : ℕ) (ls more : List (List ℕ))
    → AllOk IsText more
    → length (dotted more) < fuel
    → length (wire (ls ++ more)) ≤ 253
    → add_labels fuel (so_far ls) (dotted more) ≡ some (ran (so_far (ls ++ more), none))
unfolding add_labels next_label_of dotted
add_labels-dotted zero ls more t h w = absurd (omega arith)
add_labels-dotted (suc fuel) ls [] t h w =
    ap (λ k. some (ran (so_far k, none))) (sym (append-nil ls))
add_labels-dotted (suc fuel) ls (l ∷ more) (and_ok i t) h w =
    let size = length-append l (dot ∷ dotted more) in
    let text : (length (l ++ dot ∷ dotted more) == 0) ≡ false = ground arith in
    let wired = length-wire-and ls l more in
    let now = length-so_far ls in
    let fits = can_add (so_far ls) l i (omega arith) in
    let next : (ls ++ l ∷ []) ++ more ≡ ls ++ l ∷ more = append_assoc ls (l ∷ []) more in
    rw (text, cut-dotted l (dotted more) i.is_label.no_dot, add_label-so_far ls l fits, fits)
      (add_labels-dotted fuel (ls ++ l ∷ []) more t (omega arith)
          (subst (λ k. length (wire k) ≤ 253) (sym next) w)
        ∙ ap (λ k. some (ran (so_far k, none))) next)

new_name-dotted :
    (l : List ℕ) (ls : List (List ℕ))
    → AllOk IsText (l ∷ ls)
    → length (wire (l ∷ ls)) ≤ 253
    → new_name (dotted (l ∷ ls)) ≡ some (ran (wire (l ∷ ls) ++ 0 ∷ [], none))
unfolding new_name dotted so_far
new_name-dotted l ls (and_ok i t) w =
    let byte = i.is_label.some_byte in
    let size = length-append l (dot ∷ dotted ls) in
    let a : (length (l ++ dot ∷ dotted ls) == 0) ≡ false = ground arith in
    let b : (length (l ++ dot ∷ dotted ls) == 1) ≡ false = ground arith in
    rw (a, b)
      (add_labels-dotted (length (l ++ dot ∷ dotted ls) + 1) [] (l ∷ ls) (and_ok i t) (omega arith)
        w)

fold_labels-dotted :
    (b : List ℕ) (ls : List (List ℕ)) → fold_labels append_dotted_label b ls ≡ b ++ dotted ls
unfolding fold_labels append_dotted_label dotted
fold_labels-dotted b [] = sym (append-nil b)
fold_labels-dotted b (l ∷ ls) =
    fold_labels-dotted (append_dotted_label b l) ls
    ∙ append_assoc (b ++ l) (dot ∷ []) (dotted ls)
    ∙ append_assoc b l (dot ∷ dotted ls)

are_labels : (ls : List (List ℕ)) → AllOk IsText ls → AreLabels ls
are_labels _ no_entries = no_labels
are_labels _ (and_ok {xs = ls} i t) = and_label i.is_label (are_labels ls t)

-- A name with one label or more, each of which does not end in a byte 0, of at most 254 bytes on
-- the wire: `AppendDottedTo` appends each label and a dot, and `NewName` of that text is the name
-- again.
pub new_name-append_dotted :
    (l : List ℕ) (ls : List (List ℕ)) (b : List ℕ)
    → AllOk IsText (l ∷ ls)
    → length (wire (l ∷ ls)) ≤ 253
    → (off : ℕ) × (append_dotted (wire (l ∷ ls) ++ 0 ∷ []) b
        ≡ visited (b ++ dotted (l ∷ ls)) off none)
      × (new_name (dotted (l ∷ ls)) ≡ some (ran (wire (l ∷ ls) ++ 0 ∷ [], none)))
unfolding append_dotted visit_name
new_name-append_dotted l ls b t w =
    let n = wire (l ∷ ls) ++ 0 ∷ [] in
    let fin = 0 + length (wire (l ∷ ls)) + 1 in
    let size = length-append (wire (l ∷ ls)) (0 ∷ []) in
    let short : ltb 255 (length n) ≡ false = ground arith in
    let here = wire-NameAt n 0 (l ∷ ls) [] (are_labels (l ∷ ls) t) refl in
    (
      fin,
      rw (short) (
          visit_all_labels-NameAt append_dotted_label n 0 fin 0 b (l ∷ ls) (omega arith) here
            (omega arith) (omega arith)
          ∙ ap (λ s. visited s fin none) (fold_labels-dotted b (l ∷ ls))),
      new_name-dotted l ls t w,
    )
