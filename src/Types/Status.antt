-- ===== src/Types/Status.antt =====
-- wallet/types/transaction_status.go, and the status methods of wallet/types/transactions.go.
use bitcoin_processing.Base.{
  ℕ, String, Bool, Option, List, [], ◌∷◌, ◌==◌, ltb, if◌then◌else◌, find_name, find_key,
  name_or_invalid, key_or_error,
}

pub data TransactionStatus : Type 0 where
  new confirmed fully_confirmed pending pending_cold_storage : TransactionStatus
  pending_manual_confirmation cancelled invalid : TransactionStatus

-- `int(ts)`: the constants are numbered by `iota`.
abbrev pub status_int : TransactionStatus → ℕ
status_int new = 0
status_int confirmed = 1
status_int fully_confirmed = 2
status_int pending = 3
status_int pending_cold_storage = 4
status_int pending_manual_confirmation = 5
status_int cancelled = 6
status_int invalid = 7

-- `==` on statuses
abbrev pub same_status : TransactionStatus → TransactionStatus → Bool
same_status a b = status_int a == status_int b

abbrev pub transaction_status_to_string_map : List (TransactionStatus × String)
transaction_status_to_string_map =
    (new, "new")
    ∷ (confirmed, "confirmed")
    ∷ (fully_confirmed, "fully-confirmed")
    ∷ (pending, "pending")
    ∷ (pending_cold_storage, "pending-cold-storage")
    ∷ (pending_manual_confirmation, "pending-manual-confirmation")
    ∷ (cancelled, "cancelled")
    ∷ []

unfoldable pub status_string : TransactionStatus → String
status_string ts = name_or_invalid (find_name same_status transaction_status_to_string_map ts)

unfoldable pub transaction_status_from_string : String → TransactionStatus × Option String
transaction_status_from_string s =
    key_or_error invalid s (find_key transaction_status_to_string_map s)

-- `ToCoinpaymentsLikeCode`
unfoldable pub to_coinpayments_like_code : TransactionStatus → ℕ
to_coinpayments_like_code ts =
    if same_status ts fully_confirmed
    then 100
    else if ltb (status_int ts) 100
    then status_int ts
    else 99
