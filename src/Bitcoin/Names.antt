-- ===== src/Bitcoin/Names.antt =====
-- The names of fee types (the maps of bitcoin/fee.go).
use bitcoin_processing.Base.{◌≡◌, ◌↔◌, refl, String, none, arith, str_eq_iff}
use bitcoin_processing.Bitcoin.Fee.{FeeType, fee_type_string, fee_type_from_string}

fee_type-of-string : (ft : FeeType) → fee_type_from_string (fee_type_string ft) ≡ (ft, none)
unfolding fee_type_string fee_type_from_string
fee_type-of-string FeeType.invalid = refl
fee_type-of-string _ = refl

fee_type-parsed :
    (s : String) (ft : FeeType) → fee_type_from_string s ≡ (ft, none) → fee_type_string ft ≡ s
unfolding fee_type_string fee_type_from_string
fee_type-parsed s ft h =
    ground (arith, str_eq_iff "fixed" s, str_eq_iff "per-kb-rate" s, str_eq_iff "invalid" s)

-- A text is read as a fee type, without an error, exactly when it is the name of that fee type;
-- the invalid one has a name too, so the text "invalid" gives no error.
pub fee_type_names :
    (s : String) (ft : FeeType) → (fee_type_from_string s ≡ (ft, none)) ↔ (fee_type_string ft ≡ s)
fee_type_names s ft = (fee_type-parsed s ft, λ h. rw (← h) (fee_type-of-string ft))
