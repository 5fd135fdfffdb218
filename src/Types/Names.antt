-- ===== src/Types/Names.antt =====
-- The names of statuses and directions (the maps of wallet/types).
use bitcoin_processing.Base.{◌≡◌, ◌≢◌, ◌↔◌, refl, String, none, arith, str_eq_iff}
use bitcoin_processing.Types.Status.{
  TransactionStatus, status_string, transaction_status_from_string,
}
use bitcoin_processing.Types.Direction.{
  TransactionDirection, direction_string, transaction_direction_from_string,
}

status-of-string :
    (ts : TransactionStatus)
    → ts ≢ TransactionStatus.invalid
    → transaction_status_from_string (status_string ts) ≡ (ts, none)
unfolding status_string transaction_status_from_string
status-of-string TransactionStatus.invalid h = absurd (h refl)
status-of-string _ h = refl

status-parsed :
    (s : String) (ts : TransactionStatus)
    → transaction_status_from_string s ≡ (ts, none)
    → (status_string ts ≡ s) × (ts ≢ TransactionStatus.invalid)
unfolding status_string transaction_status_from_string
status-parsed s ts h = ground (
  arith,
  str_eq_iff "new" s,
  str_eq_iff "confirmed" s,
  str_eq_iff "fully-confirmed" s,
  str_eq_iff "pending" s,
  str_eq_iff "pending-cold-storage" s,
  str_eq_iff "pending-manual-confirmation" s,
  str_eq_iff "cancelled" s,
)

-- A text is read as a status, without an error, exactly when it is the name of that status and
-- the status is not the invalid one.
pub status_names :
    (s : String) (ts : TransactionStatus)
    → (transaction_status_from_string s ≡ (ts, none))
      ↔ ((status_string ts ≡ s) × (ts ≢ TransactionStatus.invalid))
status_names s ts = (status-parsed s ts, λ h. rw (← h.0) (status-of-string ts h.1))

direction-of-string :
    (td : TransactionDirection)
    → td ≢ TransactionDirection.invalid
    → transaction_direction_from_string (direction_string td) ≡ (td, none)
unfolding direction_string transaction_direction_from_string
direction-of-string TransactionDirection.invalid h = absurd (h refl)
direction-of-string _ h = refl

direction-parsed :
    (s : String) (td : TransactionDirection)
    → transaction_direction_from_string s ≡ (td, none)
    → (direction_string td ≡ s) × (td ≢ TransactionDirection.invalid)
unfolding direction_string transaction_direction_from_string
direction-parsed s td h =
    ground (arith, str_eq_iff "incoming" s, str_eq_iff "outgoing" s, str_eq_iff "unknown" s)

-- A text is read as a direction, without an error, exactly when it is the name of that direction
-- and the direction is not the invalid one.
pub direction_names :
    (s : String) (td : TransactionDirection)
    → (transaction_direction_from_string s ≡ (td, none))
      ↔ ((direction_string td ≡ s) × (td ≢ TransactionDirection.invalid))
direction_names s td = (direction-parsed s td, λ h. rw (← h.0) (direction-of-string td h.1))
