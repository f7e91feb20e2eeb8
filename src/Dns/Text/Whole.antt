-- ===== src/Dns/Text/Whole.antt =====
-- dns/dns.go: `NewName` ends and gives whole names.
use lneto.Base.{
  ℕ, zero, suc, ◌+◌, ◌-◌, ◌%◌, ◌^◌, ◌≤◌, ◌<◌, ◌≡◌, refl, sym, ap, ◌∙◌, inl, inr, Bool, true, false,
  ◌&&◌, Option, none, some, List, [], ◌∷◌, ◌++◌, append-nil, append_assoc, arith, ltb, ◌==◌,
  if◌then◌else◌, Option-cases, length, get_or, take, length-append, take_at, drop_at, Ran, ran,
}
use lneto.Dns.{Error, empty_domain_name, cant_add_label, dot}
use lneto.Dns.Name.{Name, can_add_label, is_terminated, add_label}
use lneto.Dns.Labels.{IsLabel, wire, AreLabels, no_labels, and_label}
use lneto.Dns.Layout.{IsName, get_or-drop}
use lneto.Dns.Text.{cut, next_label_of, add_labels, new_name}

-- The name while labels are added to it.
unfoldable pub so_far : List (List ℕ) → Name
unfolding wire
so_far [] = []
so_far (l ∷ ls) = wire (l ∷ ls) ++ 0 ∷ []

pub wire-append : (xs ys : List (List ℕ)) → wire (xs ++ ys) ≡ wire xs ++ wire ys
unfolding wire
wire-append [] ys = refl
wire-append (l ∷ ls) ys =
    ap (λ w. length l ∷ (l ++ w)) (wire-append ls ys)
    ∙ ap (λ w. length l ∷ w) (sym (append_assoc l (wire ls) (wire ys)))

AreLabels-append :
    (xs : List (List ℕ)) (l : List ℕ) → AreLabels xs → IsLabel l → AreLabels (xs ++ l ∷ [])
AreLabels-append _ l no_labels i = and_label i no_labels
AreLabels-append _ l (and_label j a) i = and_label j (AreLabels-append _ l a i)

so_far-append :
    (ls : List (List ℕ)) (l : List ℕ)
    → so_far (ls ++ l ∷ []) ≡ wire ls ++ (length l ∷ (l ++ 0 ∷ []))
unfolding so_far wire
so_far-append [] l = ap (λ w. length l ∷ (w ++ 0 ∷ [])) (append-nil l)
so_far-append (k ∷ ls) l =
    ap (λ w. w ++ 0 ∷ []) (wire-append (k ∷ ls) (l ∷ []))
    ∙ append_assoc (wire (k ∷ ls)) (wire (l ∷ [])) (0 ∷ [])
    ∙ ap (λ w. wire (k ∷ ls) ++ (length l ∷ (w ++ 0 ∷ []))) (append-nil l)

pub can_add_label-IsLabel : (n : Name) (l : List ℕ) → can_add_label n l ≡ true → IsLabel l
unfolding can_add_label
can_add_label-IsLabel n l c = record {
  some_byte = ground arith;
  short = ground arith;
  no_dot = ground arith;
}

bare :
    (ls : List (List ℕ))
    → (if is_terminated (so_far ls) then take (length (so_far ls) - 1) (so_far ls) else so_far ls)
      ≡ wire ls
unfolding is_terminated so_far wire
bare [] = refl
bare (l ∷ ls) =
    let w = wire (l ∷ ls) in
    let n = w ++ 0 ∷ [] in
    let len = length-append w (0 ∷ []) in
    let end : length n - 1 ≡ length w = omega arith in
    let last : get_or n (length w) 0 ≡ 0 =
      ap (λ j. get_or n j 0) {x = length w} {y = length w + 0} (omega arith)
      ∙ get_or-drop n (length w) 0 0
      ∙ ap (λ xs. get_or xs 0 0) (drop_at w (0 ∷ []) refl) in
    let long : ltb 0 (length n) ≡ true = ground arith in
    rw (is_terminated, long, end, last, take_at w (0 ∷ []) refl) refl

pub add_label-so_far :
    (ls : List (List ℕ)) (l : List ℕ)
    → can_add_label (so_far ls) l ≡ true
    → add_label (so_far ls) l ≡ ran (so_far (ls ++ l ∷ []))
unfolding add_label
add_label-so_far ls l c =
    let i = can_add_label-IsLabel (so_far ls) l c in
    let short = i.short in
    let byte : length l % 2 ^ 8 ≡ length l = omega arith in
    rw (c, byte, bare ls, so_far-append ls l) refl

pub so_far_lem : (ls : List (List ℕ)) → 1 ≤ length ls → so_far ls ≡ wire ls ++ 0 ∷ []
unfolding so_far
so_far_lem [] h = absurd (omega arith)
so_far_lem (l ∷ ls) h = refl

so_far-IsName : (ls : List (List ℕ)) → AreLabels ls → 1 ≤ length ls → IsName (so_far ls)
so_far-IsName ls a h = record { labels = ls; are_labels = a; whole = so_far_lem ls h }

rest_size : Option (List ℕ) → ℕ
rest_size none = 0
rest_size (some rest) = length rest

shorter-if :
    (b : Bool) (p : List ℕ × Option (List ℕ)) (cs rest : List ℕ)
    → ((if b then ([], some cs) else p).1 ≡ some rest)
    → (p.1 ≡ some rest → length rest < length cs)
    → length rest < suc (length cs)
unfolding rest_size
shorter-if true p cs rest e later = let s = ap rest_size e in omega arith
shorter-if false p cs rest e later = let s = later e in omega arith

cut-shorter : (domain rest : List ℕ) → (cut domain).1 ≡ some rest → length rest < length domain
unfolding cut
cut-shorter [] rest e = absurd (ground arith)
cut-shorter (c ∷ cs) rest e =
    shorter-if (c == dot) (c ∷ (cut cs).0, (cut cs).1) cs rest e (λ f. cut-shorter cs rest f)

-- `NewName` returned, and without an error the name is whole.
data Made (o : Option (Ran (Name × Option Error))) : Type 0 where
  made :
      (n : Name) (err : Option Error) → o ≡ some (ran (n, err)) → (err ≡ none → IsName n) → Made o

Made-if :
    (b : Bool) (x y : Option (Ran (Name × Option Error)))
    → (b ≡ true → Made x)
    → (b ≡ false → Made y)
    → Made (if b then x else y)
Made-if true x y p q = p refl
Made-if false x y p q = q refl

add_labels-Made :
    (fuel : ℕ) (ls : List (List ℕ)) (domain : List ℕ)
    → AreLabels ls
    → length domain < fuel
    → 1 ≤ length domain + length ls
    → Made (add_labels fuel (so_far ls) domain)
unfolding add_labels next_label_of
add_labels-Made zero ls domain a h one = absurd (omega arith)
add_labels-Made (suc fuel) ls domain a h one =
    Made-if (length domain == 0) _ _
      (λ z. made (so_far ls) none refl (λ e. so_far-IsName ls a (ground arith)))
      (λ nz.
        Made-if (can_add_label (so_far ls) (cut domain).0) _ _
          (λ c.
            let l = (cut domain).0 in
            let i = can_add_label-IsLabel (so_far ls) l c in
            let both = AreLabels-append ls l a i in
            let longer = length-append ls (l ∷ []) in
            rw (add_label-so_far ls l c) (elim (Option-cases (cut domain).1) [
              | inl e ↦ rw (e) (
                  made (so_far (ls ++ l ∷ [])) none refl
                    (λ z. so_far-IsName (ls ++ l ∷ []) both (omega arith)))
              | inr (rest, e) ↦ rw (e) (
                  let s = cut-shorter domain rest e in
                  add_labels-Made fuel (ls ++ l ∷ []) rest both (omega arith) (omega arith))
            ]))
          (λ c. made [] (some cant_add_label) refl (λ e. absurd (ground arith))))

root-IsName : IsName (0 ∷ [])
unfolding wire
root-IsName = record { labels = []; are_labels = no_labels; whole = refl }

new_name-Made : (domain : List ℕ) → Made (new_name domain)
unfolding new_name so_far
new_name-Made domain =
    Made-if (length domain == 0) _ _
      (λ z. made [] (some empty_domain_name) refl (λ e. absurd (ground arith)))
      (λ nz.
        Made-if (length domain == 1 && get_or domain 0 0 == dot) _ _
          (λ z. made (0 ∷ []) none refl (λ e. root-IsName))
          (λ z.
            add_labels-Made (length domain + 1) [] domain no_labels (omega arith) (ground arith)))

-- `NewName` returns for every text and does not panic, and without an error the name is whole: labels
-- of 1 to 63 bytes without a dot, and the root.
pub new_name_total :
    (domain : List ℕ)
    → (n : Name) × (err : Option Error) × (new_name domain ≡ some (ran (n, err)))
      × (err ≡ none → IsName n)
new_name_total domain = elim (new_name-Made domain) [ made n err e w ↦ (n, err, e, w) ]
