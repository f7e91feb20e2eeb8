-- ===== src/Dns/Compressed.antt =====
-- dns/dns.go: `Name.Decode` of a name in a message.
use lneto.Base.{
  ℕ, zero, suc, ◌+◌, ◌-◌, ◌*◌, ◌%◌, ◌^◌, ◌≤◌, ◌<◌, ◌≡◌, refl, sym, ap, ◌∙◌, subst, ◌≢◌, ◌⊎◌, inl,
  inr, false, Option, none, List, [], ◌∷◌, ◌++◌, append-nil, append_assoc, arith, ltb, leb, ◌==◌,
  if◌then◌else◌, length, drop, length-append, length-drop, drop-drop, take_at, drop_at,
}
use lneto.Dns.Labels.{
  IsLabel, wire, NameAt, root, label, pointer, AreLabels, and_label, next_label-text,
  next_label-pointer,
}
use lneto.Dns.{
  Error, text_label, next_label, visited, out_of_fuel, again, ends, max_ptr, visit_label,
  visit_round, visit_labels, visit_all_labels,
}
use lneto.Dns.Walk.{visit_all_labels_total}
use lneto.Dns.Name.{Name, decode_name, visit_add_label}

unfoldable pub fold_labels {ℓ} : {S : Type ℓ} → (S → List ℕ → S) → S → List (List ℕ) → S
fold_labels fn s [] = s
fold_labels fn s (l ∷ ls) = fold_labels fn (fn s l) ls

-- An offset with bytes after it is in the message.
before_end :
    (msg : List ℕ) (off : ℕ) (b : ℕ) (rest : List ℕ)
    → drop off msg ≡ b ∷ rest
    → off + suc (length rest) ≡ length msg
before_end msg off b rest e = let s = ap length e in let d = length-drop off msg in omega arith

not_past :
    (msg : List ℕ) (off : ℕ) (b : ℕ) (rest : List ℕ)
    → drop off msg ≡ b ∷ rest
    → ltb (length msg) off ≡ false
not_past msg off b rest e = let s = before_end msg off b rest e in ground arith

module _ {ℓ} {S : Type ℓ} (fn : S → List ℕ → S) where
  round_root :
      (msg : List ℕ) (off new_off ptr : ℕ) (s : S) (rest : List ℕ)
      → length msg < 2 ^ 16
      → drop off msg ≡ 0 ∷ rest
      → visit_round fn msg off new_off ptr s
        ≡ ends (visited s (if ptr == 0 then off + 1 else new_off) none)
  unfolding visit_round visit_label next_label text_label
  round_root msg off new_off ptr s rest u e =
      let b = before_end msg off 0 rest e in
      let low : (off + 1) % 2 ^ 16 ≡ off + 1 = omega arith in
      rw (not_past msg off 0 rest e, e, low) refl

  round_label :
      (msg : List ℕ) (off new_off ptr : ℕ) (s : S) (l rest : List ℕ)
      → length msg < 2 ^ 16
      → IsLabel l
      → drop off msg ≡ length l ∷ (l ++ rest)
      → visit_round fn msg off new_off ptr s ≡ again (off + (1 + length l)) new_off ptr (fn s l)
  unfolding visit_round visit_label
  round_label msg off new_off ptr s l rest u i e =
      let n = length l in
      let b = before_end msg off n (l ++ rest) e in
      let la = length-append l rest in
      let byte = i.some_byte in
      let low : (off + (1 + n)) % 2 ^ 16 ≡ off + (1 + n) = omega arith in
      let text : (1 == 1 + n) ≡ false = ground arith in
      let size : 1 + n - 1 ≡ n = omega arith in
      let after : drop (off + 1) msg ≡ l ++ rest = sym (drop-drop 1 off msg) ∙ ap (drop 1) e in
      rw
        (
          not_past msg off n (l ++ rest) e,
          e,
          next_label-text l rest i,
          text,
          low,
          size,
          after,
          take_at l rest refl,
        )
        refl

  round_pointer :
      (msg : List ℕ) (off new_off ptr hi lo : ℕ) (s : S) (rest : List ℕ)
      → length msg < 2 ^ 16
      → hi < 2 ^ 6
      → lo < 2 ^ 8
      → 1 ≤ hi * 2 ^ 8 + lo
      → drop off msg ≡ (0xc0 + hi) ∷ lo ∷ rest
      → hi * 2 ^ 8 + lo < length msg
      → ptr < max_ptr
      → visit_round fn msg off new_off ptr s
        ≡ again (hi * 2 ^ 8 + lo) (if ptr == 0 then off + 2 else new_off) (ptr + 1) s
  unfolding visit_round visit_label
  round_pointer msg off new_off ptr hi lo s rest u h l nz e i p =
      let b = before_end msg off (0xc0 + hi) (lo ∷ rest) e in
      let low : (off + 2) % 2 ^ 16 ≡ off + 2 = omega arith in
      let target : (hi * 2 ^ 8 + lo == 0) ≡ false = ground arith in
      let inside : leb (length msg) (hi * 2 ^ 8 + lo) ≡ false = ground arith in
      let few : ltb max_ptr (ptr + 1) ≡ false = ground arith in
      rw
        (
          not_past msg off (0xc0 + hi) (lo ∷ rest) e,
          e,
          next_label-pointer hi lo rest h l,
          target,
          inside,
          few,
          low,
        )
        refl

  visit_labels-NameAt :
      (fuel : ℕ) (msg : List ℕ) (off new_off ptr fin hops : ℕ) (s : S) (ls : List (List ℕ))
      → length msg < 2 ^ 16
      → NameAt msg off ls fin hops
      → ptr + hops ≤ max_ptr
      → (visit_labels fn fuel msg off new_off ptr s ≡ out_of_fuel)
        ⊎ (visit_labels fn fuel msg off new_off ptr s
            ≡ visited (fold_labels fn s ls) (if ptr == 0 then fin else new_off) none)
  unfolding visit_labels fold_labels
  visit_labels-NameAt zero msg off new_off ptr fin hops s ls u n p = inl refl
  visit_labels-NameAt (suc fuel) msg off new_off ptr _ _ s _ u (root rest e) p =
      inr (rw (visit_labels, round_root msg off new_off ptr s rest u e) refl)
  visit_labels-NameAt (suc fuel) msg off new_off ptr fin hops s _ u (label l rest {ls} i e n) p =
      rw (visit_labels, round_label msg off new_off ptr s l rest u i e)
        (visit_labels-NameAt fuel msg (off + (1 + length l)) new_off ptr fin hops (fn s l) ls u n p)
  visit_labels-NameAt (suc fuel) msg off new_off ptr _ _ s ls u
        (pointer {fin = fin} {hops = hops} hi lo rest h l nz e i n) p =
      let on = if ptr == 0 then off + 2 else new_off in
      let followed : (ptr + 1 == 0) ≡ false = ground arith in
      rw (visit_labels, round_pointer msg off new_off ptr hi lo s rest u h l nz e i (omega arith))
        (elim (visit_labels-NameAt fuel msg (hi * 2 ^ 8 + lo) on (ptr + 1) fin hops s ls u n
          (omega arith)) [ inl d ↦ inl d | inr d ↦ inr (d ∙ rw (followed) refl) ])

  differs : {s : S} {off : ℕ} {err : Option Error} → visited s off err ≢ out_of_fuel
  differs e = ground arith

  -- The walk calls back with each label of the name, in order, and returns the offset after the name.
  pub visit_all_labels-NameAt :
      (msg : List ℕ) (off fin hops : ℕ) (s : S) (ls : List (List ℕ))
      → length msg < 2 ^ 16
      → NameAt msg off ls fin hops
      → hops ≤ max_ptr
      → off ≤ length msg
      → visit_all_labels fn msg off s ≡ visited (fold_labels fn s ls) fin none
  unfolding visit_all_labels
  visit_all_labels-NameAt msg off fin hops s ls u n p i =
      let short : ltb (2 ^ 16 - 1) (length msg) ≡ false = ground arith in
      let (s', off', err, e, b, m) = visit_all_labels_total fn msg off s i in
      let fuel = (max_ptr + 1) * (length msg + 1) in
      let run : visit_all_labels fn msg off s ≡ visit_labels fn fuel msg off off 0 s =
        rw (visit_all_labels, short) refl in
      elim (visit_labels-NameAt fuel msg off off 0 fin hops s ls u n (omega arith)) [
        | inl d ↦ absurd (differs (sym e ∙ run ∙ d))
        | inr d ↦ run ∙ d
      ]

fold_labels-wire :
    (msg : List ℕ) (off fin hops : ℕ) (n : Name) (ls : List (List ℕ))
    → NameAt msg off ls fin hops
    → fold_labels visit_add_label n ls ≡ n ++ wire ls
unfolding fold_labels visit_add_label wire
fold_labels-wire msg off _ _ n _ (root rest e) = sym (append-nil n)
fold_labels-wire msg off fin hops n _ (label l rest {ls} i e t) =
    let short = i.short in
    let byte : length l % 2 ^ 8 ≡ length l = omega arith in
    fold_labels-wire msg (off + (1 + length l)) fin hops (visit_add_label n l) ls t
    ∙ ap (λ b. (n ++ (b ∷ l)) ++ wire ls) byte
    ∙ append_assoc n (length l ∷ l) (wire ls)
fold_labels-wire msg off _ _ n ls (pointer {fin = fin} {hops = hops} hi lo rest h l nz e i t) =
    fold_labels-wire msg (hi * 2 ^ 8 + lo) fin hops n ls t

-- In a message of at most 65535 bytes, `Name.Decode` expands the name that stands at an offset,
-- when at most ten pointers have to be followed, none of them to offset 0: it leaves the labels
-- without any pointer and with the root, and returns the offset after the name, without an error.
pub decode_name-NameAt :
    (msg : List ℕ) (off fin hops : ℕ) (ls : List (List ℕ))
    → length msg < 2 ^ 16
    → NameAt msg off ls fin hops
    → hops ≤ max_ptr
    → off ≤ length msg
    → decode_name msg off ≡ visited (wire ls ++ 0 ∷ []) fin none
unfolding decode_name
decode_name-NameAt msg off fin hops ls u n p i =
    rw
      (
        decode_name,
        visit_all_labels-NameAt visit_add_label msg off fin hops [] ls u n p i,
        fold_labels-wire msg off fin hops [] ls n,
      )
      refl

drop_past_label : (n : ℕ) (l rest : List ℕ) → n ≡ length l → drop (1 + n) (n ∷ (l ++ rest)) ≡ rest
drop_past_label n l rest e =
    ap (λ k. drop k (n ∷ (l ++ rest))) {x = 1 + n} {y = suc n} (omega arith) ∙ drop_at l rest e

-- A name that stands in a message as `AppendTo` writes it.
pub wire-NameAt :
    (msg : List ℕ) (off : ℕ) (ls : List (List ℕ)) (after : List ℕ)
    → AreLabels ls
    → drop off msg ≡ wire ls ++ 0 ∷ after
    → NameAt msg off ls (off + length (wire ls) + 1) 0
unfolding wire
wire-NameAt msg off [] after a e =
    subst (λ fin. NameAt msg off [] fin 0) {x = off + 1} {y = off + 0 + 1} (omega arith)
      (root after e)
wire-NameAt msg off (l ∷ ls) after (and_label i a) e =
    let n = length l in
    let rest = wire ls ++ 0 ∷ after in
    let split : drop off msg ≡ n ∷ (l ++ rest) =
      e ∙ ap (λ t. n ∷ t) (append_assoc l (wire ls) (0 ∷ after)) in
    let past : drop (off + (1 + n)) msg ≡ rest =
      sym (drop-drop (1 + n) off msg) ∙ ap (drop (1 + n)) split ∙ drop_past_label n l rest refl in
    let la = length-append l (wire ls) in
    subst (λ fin. NameAt msg off (l ∷ ls) fin 0) {x = off + (1 + n) + length (wire ls) + 1}
      {y = off + suc (length (l ++ wire ls)) + 1} (omega arith)
      (label l rest i split (wire-NameAt msg (off + (1 + n)) ls after a past))
