-- ===== src/Wallet/Notify/Status.antt =====
-- The status that follows from the confirmations.
use bitcoin_processing.Base.{◌≤◌, ◌≡◌, ◌⊎◌, arith}
use bitcoin_processing.Base.Int.{ℤ, ◌≤ℤ◌}
use bitcoin_processing.Types.Status.{TransactionStatus, status_int}
use bitcoin_processing.Wallet.Notify.{status_by_confirmations}

-- The statuses of transactions that have been sent to the network.
abbrev pub IsBroadcast : TransactionStatus → Type 0
IsBroadcast s =
    (s ≡ TransactionStatus.new)
    ⊎ (s ≡ TransactionStatus.confirmed)
    ⊎ (s ≡ TransactionStatus.fully_confirmed)

-- More confirmations never move a transaction back: between the statuses new, confirmed and
-- fully-confirmed (in this order) the status only rises with the number of confirmations, whatever
-- statuses of these three the transaction had before.
pub status_by_confirmations_mono :
    (max m n : ℤ) (s t : TransactionStatus)
    → IsBroadcast s
    → IsBroadcast t
    → m ≤ℤ n
    → status_int (status_by_confirmations max m s) ≤ status_int (status_by_confirmations max n t)
unfolding status_by_confirmations
status_by_confirmations_mono max m n s t p q h = ground arith

-- Pending and cancelled withdrawals keep their status whatever the number of confirmations.
pub status_by_confirmations_keeps :
    (max n : ℤ) (s : TransactionStatus) → (3 ≤ status_int s) → status_by_confirmations max n s ≡ s
unfolding status_by_confirmations
status_by_confirmations_keeps max n s h = ground arith
