-- ===== src/Tcp/OptionCodec.antt =====
-- tcp/options.go: TCP options. A kind is a byte; an option's size is that of its kind, its length
-- byte and its data.
pub mod Passes
pub mod RoundTrip
mod Tests
use lneto.Base.{
  ℕ, zero, suc, ◌+◌, ◌-◌, ◌/◌, ◌%◌, ◌^◌, ◌⊎◌, inl, inr, Bool, not, ◌&&◌, ◌||◌, Option, none, some,
  List, [], ◌∷◌, ltb, leb, ◌==◌, if◌then◌else◌, length, take, drop, write_at,
}

pub data Error : Type 0 where
  short_buffer invalid_length_field invalid_field truncated_frame : Error

abbrev pub opt_end : ℕ
opt_end = 0

abbrev pub opt_nop : ℕ
opt_nop = 1

abbrev pub opt_max_segment_size : ℕ
opt_max_segment_size = 2

abbrev pub opt_window_scale : ℕ
opt_window_scale = 3

-- The kinds whose name ends in "(obsolete)".
unfoldable pub is_obsolete : ℕ → Bool
is_obsolete kind = kind == 6 || kind == 7 || (leb 9 kind && leb kind 15) || kind == 19

unfoldable pub is_defined : ℕ → Bool
is_defined kind = leb kind 30 || kind == 34 || kind == 69 || kind == 172 || kind == 174

-- The flags of an `OptionCodec`.
pub record OptionCodec : Type 0 where
  pub skip_size_validation : Bool
  pub skip_obsolete : Bool

-- The new buffer and the size, or the error.
unfoldable pub put_option : List ℕ → ℕ → List ℕ → (List ℕ × ℕ) ⊎ Error
put_option dst kind bytes =
    let put_size = 2 + length bytes in
    if ltb (length dst) put_size
    then inr short_buffer
    else if ltb 255 put_size
    then inr invalid_length_field
    else if kind == opt_nop || kind == opt_end
    then inr invalid_field
    else inl (write_at dst 0 (kind ∷ put_size ∷ bytes), put_size)

unfoldable pub put_option16 : List ℕ → ℕ → ℕ → (List ℕ × ℕ) ⊎ Error
unfolding put_option
put_option16 dst kind v = put_option dst kind (v / 2 ^ 8 % 2 ^ 8 ∷ v % 2 ^ 8 ∷ [])

-- The size that the codec asks for, or 0.
unfoldable pub expect_size : ℕ → ℕ
expect_size kind =
    if kind == 8
    then 10
    else if kind == 2 || kind == 28
    then 4
    else if kind == 3
    then 3
    else if kind == 4
    then 2
    else 0

pub record Parsed : Type 0 where
  pub kind : ℕ
  pub opt_data : List ℕ
  pub remaining : List ℕ
  pub err : Option Error

-- One pass of `Next` from its label on.
pub data Pass : Type 0 where
  redo : List ℕ → Pass
  done : Parsed → Pass

unfoldable pub size_error : OptionCodec → ℕ → ℕ → Option Error
unfolding expect_size
size_error op kind size =
    if not op.skip_size_validation && not (expect_size kind == 0) && not (size == expect_size kind)
    then some invalid_length_field
    else none

unfoldable pub pass : OptionCodec → List ℕ → Pass
unfolding is_obsolete is_defined size_error
pass op [] = done (record { kind = opt_end; opt_data = []; remaining = []; err = none })
pass op (kind ∷ []) =
    if kind == 0
    then done (record { kind = opt_end; opt_data = []; remaining = []; err = none })
    else if kind == opt_nop
    then done (record { kind = kind; opt_data = []; remaining = []; err = none })
    else done (record { kind = kind; opt_data = []; remaining = []; err = some truncated_frame })
pass op (kind ∷ size ∷ rest) =
    if kind == 0
    then done (record { kind = opt_end; opt_data = []; remaining = []; err = none })
    else if kind == opt_nop
    then done (record { kind = kind; opt_data = []; remaining = size ∷ rest; err = none })
    else if ltb (2 + length rest) size
    then done (record { kind = kind; opt_data = []; remaining = []; err = some truncated_frame })
    else if ltb size 2
    then done
        (record { kind = kind; opt_data = []; remaining = []; err = some invalid_length_field })
    else if op.skip_obsolete && is_defined kind && is_obsolete kind
    then redo (drop (size - 2) rest)
    else done (record {
      kind = kind;
      opt_data = take (size - 2) rest;
      remaining = drop (size - 2) rest;
      err = size_error op kind size;
    })

-- `Next`; `none` when the fuel runs out.
unfoldable pub next : ℕ → OptionCodec → List ℕ → Option Parsed
unfolding pass
next zero op opts = none
next (suc fuel) op opts = elim (pass op opts) [ done p ↦ some p | redo rest ↦ next fuel op rest ]

-- `ForEachOption`: the callback `fn` takes a state along, and may fail.
module _ {ℓ} {S : Type ℓ} (fn : S → ℕ → List ℕ → S × Option Error) where
  unfoldable pub for_each_option : ℕ → OptionCodec → List ℕ → S → Option (S × Option Error)
  unfolding next
  for_each_option zero op opts s = none
  for_each_option (suc fuel) op opts s = elim (next (suc fuel) op opts) [
    | none ↦ none
    | some p ↦
        let rest = for_each_option fuel op p.remaining s in
        let (s', fn_err) = fn s p.kind p.opt_data in
        let after = for_each_option fuel op p.remaining s' in
        elim p.err [
          | some e ↦ some (s, some e)
          | none ↦
              if p.kind == opt_end
              then some (s, none)
              else if p.kind == opt_nop
              then rest
              else elim fn_err [ some e ↦ some (s', some e) | none ↦ after ]
        ]
  ]
