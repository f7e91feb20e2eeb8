-- ===== src/Dns.antt =====
-- dns/dns.go: the labels of a name on the wire, and walking along them. A message is a list of bytes.
-- Compression is allowed in every call of the walk.
pub mod Walk
pub mod Name
pub mod Labels
pub mod Compressed
pub mod Message
pub mod Records
pub mod Skips
pub mod Parse
pub mod Grammar
pub mod Append
pub mod Bytes
pub mod Encode
pub mod Layout
pub mod RoundTrip
pub mod Text
mod Tests
use lneto.Base.{
  ℕ, zero, suc, ◌+◌, ◌-◌, ◌*◌, ◌%◌, ◌^◌, Bool, true, false, ◌||◌, Option, none, some, List, [], ◌∷◌,
  ltb, leb, ◌==◌, if◌then◌else◌, bit_and, bit_xor, length, take, drop,
}

-- The errors of the functions below. `truncated` is lneto.ErrTruncatedFrame and `exhausted`
-- lneto.ErrExhausted; a walk with compression never returns errCompressedSRV.
pub data Error : Type 0 where
  truncated reserved invalid_name invalid_ptr too_many_ptr res_too_long : Error
  resource_len name_too_long cant_add_label empty_domain_name : Error
  exhausted : Error

-- `'.'`
abbrev pub dot : ℕ
dot = 46

-- `bytes.IndexByte(b, c) >= 0`
unfoldable pub has_byte : List ℕ → ℕ → Bool
has_byte [] c = false
has_byte (x ∷ xs) c = x == c || has_byte xs c

-- What `NextLabel` returns.
pub record Label : Type 0 where
  pub start : ℕ
  pub stop : ℕ
  pub is_pointer : Bool
  pub err : Option Error

-- A label of text whose control byte is `c`.
unfoldable pub text_label : ℕ → List ℕ → Label
unfolding has_byte
text_label c rest =
    if c == 0
    then record { start = 1; stop = 1; is_pointer = false; err = none }
    else if ltb (suc (length rest)) (1 + c)
    then record { start = 1; stop = 1 + c; is_pointer = false; err = some truncated }
    else if has_byte (take c rest) dot
    then record { start = 1; stop = 1 + c; is_pointer = false; err = some invalid_name }
    else record { start = 1; stop = 1 + c; is_pointer = false; err = none }

unfoldable pub pointer_label : ℕ → List ℕ → Label
pointer_label c [] = record { start = 0; stop = 0; is_pointer = true; err = some truncated }
pointer_label c (c1 ∷ rest) = record {
  start = bit_xor c 0xc0 * 2 ^ 8 % 2 ^ 16 + c1;
  stop = 0;
  is_pointer = true;
  err = none;
}

unfoldable pub next_label : List ℕ → Label
unfolding text_label pointer_label
next_label [] = record { start = 0; stop = 0; is_pointer = false; err = some truncated }
next_label (c ∷ rest) =
    let class = bit_and c 0xc0 in
    if class == 0
    then text_label c rest
    else if class == 0xc0
    then pointer_label c rest
    else record { start = 0; stop = 0; is_pointer = false; err = some reserved }

-- How a walk ends: with the state of its callback, the offset and the error; with a slice
-- expression out of range; or without fuel.
pub data Visit {ℓ} (S : Type ℓ) : Type ℓ where
  visited : S → ℕ → Option Error → Visit S
  out_of_range : Visit S
  out_of_fuel : Visit S

-- A round of the loop.
pub data Round {ℓ} (S : Type ℓ) : Type ℓ where
  again : ℕ → ℕ → ℕ → S → Round S
  ends : Visit S → Round S

abbrev pub max_ptr : ℕ
max_ptr = 10

-- The callback `fn` takes a state along.
module _ {ℓ} {S : Type ℓ} (fn : S → List ℕ → S) where
  -- The round for a label, with the message, the offset, the offset after the name and the number
  -- of pointers.
  unfoldable pub visit_label : List ℕ → ℕ → ℕ → ℕ → S → Label → Round S
  visit_label msg off new_off ptr s l =
      let new_off' = if ptr == 0 then (off + 2) % 2 ^ 16 else new_off in
      elim l.err [
        | some e ↦ ends (visited s off (some e))
        | none ↦
            if l.start == l.stop
            then ends (visited s (if ptr == 0 then (off + 1) % 2 ^ 16 else new_off) none)
            else if l.is_pointer
            then if leb (length msg) l.start
              then ends (visited s new_off' (some invalid_ptr))
              else if ltb max_ptr (ptr + 1)
              then ends (visited s new_off' (some too_many_ptr))
              else again l.start new_off' (ptr + 1) s
            else again ((off + l.stop) % 2 ^ 16) new_off ptr
                (fn s (take (l.stop - l.start) (drop (off + l.start) msg)))
      ]

  unfoldable pub visit_round : List ℕ → ℕ → ℕ → ℕ → S → Round S
  unfolding visit_label next_label
  visit_round msg off new_off ptr s =
      if ltb (length msg) off
      then ends out_of_range
      else visit_label msg off new_off ptr s (next_label (drop off msg))

  unfoldable pub visit_labels : ℕ → List ℕ → ℕ → ℕ → ℕ → S → Visit S
  unfolding visit_round
  visit_labels zero msg off new_off ptr s = out_of_fuel
  visit_labels (suc fuel) msg off new_off ptr s = elim (visit_round msg off new_off ptr s) [
    | ends v ↦ v
    | again off' new_off' ptr' s' ↦ visit_labels fuel msg off' new_off' ptr' s'
  ]

  -- `visitAllLabels`. A walk along the message for each pointer and one more is enough fuel.
  unfoldable pub visit_all_labels : List ℕ → ℕ → S → Visit S
  unfolding visit_labels
  visit_all_labels msg off s =
      if ltb (2 ^ 16 - 1) (length msg)
      then visited s off (some res_too_long)
      else visit_labels ((max_ptr + 1) * (length msg + 1)) msg off off 0 s
