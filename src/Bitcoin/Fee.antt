-- ===== src/Bitcoin/Fee.antt =====
-- bitcoin/fee.go.
use bitcoin_processing.Base.{
  ℕ, String, Bool, Option, List, [], ◌∷◌, ◌==◌, find_name, find_key, name_or_invalid, key_or_error,
}

pub data FeeType : Type 0 where
  invalid per_kb_rate fixed : FeeType

abbrev pub fee_type_int : FeeType → ℕ
fee_type_int invalid = 0
fee_type_int per_kb_rate = 1
fee_type_int fixed = 2

-- `==` on fee types
abbrev pub same_fee_type : FeeType → FeeType → Bool
same_fee_type a b = fee_type_int a == fee_type_int b

abbrev pub fee_type_to_string_map : List (FeeType × String)
fee_type_to_string_map = (fixed, "fixed") ∷ (per_kb_rate, "per-kb-rate") ∷ (invalid, "invalid") ∷ []

unfoldable pub fee_type_string : FeeType → String
fee_type_string ft = name_or_invalid (find_name same_fee_type fee_type_to_string_map ft)

unfoldable pub fee_type_from_string : String → FeeType × Option String
fee_type_from_string s = key_or_error invalid s (find_key fee_type_to_string_map s)
