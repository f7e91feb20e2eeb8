-- ===== src/Validation.antt =====
-- validation.go: the collector of errors. An error is of any type; positions of bits are left out.
use lneto.Base.{Bool, not, ◌&&◌, List, [], ◌∷◌, ◌++◌, ◌==◌, if◌then◌else◌, length}

-- `flags` is the flag that allows more than one error.
pub record Validator {ℓ} (E : Type ℓ) : Type ℓ where
  pub accum : List E
  pub allow_multi_errors : Bool

module _ {ℓ} {E : Type ℓ} where
  unfoldable pub reset_err : Validator E → Validator E
  reset_err v = record v { accum = [] }

  -- An error, or several that are joined, as a list; no error is the empty list.
  unfoldable pub err_pop : Validator E → List E × Validator E
  unfolding reset_err
  err_pop v = (v.accum, if length v.accum == 0 then v else reset_err v)

  unfoldable pub add_error : Validator E → E → Validator E
  add_error v err =
      if not (length v.accum == 0) && not v.allow_multi_errors
      then v
      else record v { accum = v.accum ++ (err ∷ []) }
