-- ===== src/Types/Direction.antt =====
-- wallet/types/transaction_direction.go, and the direction methods of wallet/types/transactions.go.
use bitcoin_processing.Base.{
  ℕ, String, Bool, Option, List, [], ◌∷◌, ◌==◌, find_name, find_key, name_or_invalid, key_or_error,
}

pub data TransactionDirection : Type 0 where
  incoming outgoing unknown invalid : TransactionDirection

abbrev pub direction_int : TransactionDirection → ℕ
direction_int incoming = 0
direction_int outgoing = 1
direction_int unknown = 2
direction_int invalid = 3

-- `==` on directions
abbrev pub same_direction : TransactionDirection → TransactionDirection → Bool
same_direction a b = direction_int a == direction_int b

abbrev pub transaction_direction_to_string_map : List (TransactionDirection × String)
transaction_direction_to_string_map =
    (incoming, "incoming") ∷ (outgoing, "outgoing") ∷ (unknown, "unknown") ∷ []

unfoldable pub direction_string : TransactionDirection → String
direction_string td =
    name_or_invalid (find_name same_direction transaction_direction_to_string_map td)

unfoldable pub transaction_direction_from_string : String → TransactionDirection × Option String
transaction_direction_from_string s =
    key_or_error invalid s (find_key transaction_direction_to_string_map s)

-- `ToCoinpaymentsLikeType`
unfoldable pub to_coinpayments_like_type : TransactionDirection → String
to_coinpayments_like_type incoming = "deposit"
to_coinpayments_like_type outgoing = "withdrawal"
to_coinpayments_like_type _ = "unknown"
