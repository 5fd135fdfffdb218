-- ===== src/Base/Names.antt =====
-- The two Go maps behind each enum: from a value to its name, and the inverse that `init` builds.
-- `find_name` and `find_key` are the map lookups `v, ok := m[k]`.
use mathlib.Core.Option.{Option, none, some}
use mathlib.Core.List.{List, [], ◌∷◌}
use mathlib.Core.Bool.{Bool}
use Prim.Native.String.{String}
use bitcoin_processing.Base.Tests.{if◌then◌else◌, str_eq}

-- `String()` of the enums: "invalid" for what the map lacks.
abbrev pub name_or_invalid : Option String → String
name_or_invalid none = "invalid"
name_or_invalid (some s) = s

module _ {ℓ} {A : Type ℓ} where
  abbrev pub find_name : (A → A → Bool) → List (A × String) → A → Option String
  find_name same [] a = none
  find_name same ((k, v) ∷ m) a = if same k a then some v else find_name same m a

  abbrev pub find_key : List (A × String) → String → Option A
  find_key [] s = none
  find_key ((k, v) ∷ m) s = if str_eq v s then some k else find_key m s

  -- What the `FromString` functions return, a value and an error; the error carries the text.
  abbrev pub key_or_error : A → String → Option A → A × Option String
  key_or_error bad s none = (bad, some s)
  key_or_error bad s (some a) = (a, none)
