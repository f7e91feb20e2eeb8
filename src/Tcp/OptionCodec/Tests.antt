-- ===== src/Tcp/OptionCodec/Tests.antt =====
-- tcp/options.go at concrete inputs.
use lneto.Base.{ℕ, ◌≡◌, refl, true, false, Option, none, some, List, [], ◌∷◌, ◌++◌, arith, write_at}
use lneto.Tcp.OptionCodec.{
  is_defined, is_obsolete, Error, invalid_length_field, OptionCodec, put_option, next, size_error,
  for_each_option,
}
use lneto.Tcp.OptionCodec.Passes.{for_each_option_total}
use lneto.Tcp.OptionCodec.RoundTrip.{next-put_option}

abbrev strict : OptionCodec
strict = record { skip_size_validation = false; skip_obsolete = true }

-- A callback that keeps what it is given.
abbrev keep : List (ℕ × List ℕ) → ℕ → List ℕ → List (ℕ × List ℕ) × Option Error
keep s kind bytes = (s ++ ((kind, bytes) ∷ []), none)

-- A segment size of 1460, an obsolete echo, a filler, a window scale of 7 and the end.
abbrev some_options : List ℕ
some_options = 2 ∷ 4 ∷ 5 ∷ 180 ∷ 6 ∷ 3 ∷ 9 ∷ 1 ∷ 3 ∷ 3 ∷ 7 ∷ 0 ∷ []

all_read :
    for_each_option keep 13 strict some_options []
    ≡ some ((2, 5 ∷ 180 ∷ []) ∷ (3, 7 ∷ []) ∷ [], none)
unfolding for_each_option
all_read = refl

wrong_size :
    for_each_option keep 5 strict (3 ∷ 4 ∷ 7 ∷ 7 ∷ []) [] ≡ some ([], some invalid_length_field)
unfolding for_each_option
wrong_size = refl

for_each_option_total_example :
    (r : List (ℕ × List ℕ) × Option Error) × (for_each_option keep 13 strict some_options []
      ≡ some r)
for_each_option_total_example = for_each_option_total keep 13 strict some_options [] (omega arith)

next-put_option_example :
    next 1 strict (2 ∷ 4 ∷ 5 ∷ 180 ∷ 8 ∷ [])
    ≡ some (record {
      kind = 2;
      opt_data = 5 ∷ 180 ∷ [];
      remaining = 8 ∷ [];
      err = size_error strict 2 4;
    })
unfolding put_option is_defined is_obsolete write_at
next-put_option_example =
    next-put_option 0 strict (0 ∷ 0 ∷ 0 ∷ 0 ∷ 8 ∷ []) (2 ∷ 4 ∷ 5 ∷ 180 ∷ 8 ∷ []) 2 4 (5 ∷ 180 ∷ [])
      refl refl
