-- ===== src/Wallet/Memory.antt =====
-- wallet/memorystorage.go: the storage of the wallet in memory. It keeps the pointers it is given
-- and hands them out, so transactions are objects on a heap, and a pointer is a number.
pub mod Identifiers
pub mod Sharing
use bitcoin_processing.Base.{
  ℕ, suc, ◌==◌, String, str_eq, Bool, true, false, not, ◌&&◌, ◌||◌, Option, none, some, List, [],
  ◌∷◌, ◌++◌, if◌then◌else◌, keep,
}
use bitcoin_processing.Base.Int.{ℤ, ltb_ℤ}
use bitcoin_processing.Types.Status
use bitcoin_processing.Types.Status.{status_string, same_status}
use bitcoin_processing.Types.Direction.{direction_string, same_direction}
use bitcoin_processing.Types.Transaction
use bitcoin_processing.Types.Transaction.{Transaction}
use bitcoin_processing.Events.Types.{Account}
use bitcoin_processing.Monad
use bitcoin_processing.Monad.{Outcome, ok, err, panic, M, pure, gets, modify, lift, ◌>>=◌, ◌>>◌}

abbrev pub Heap : Type 0
Heap = ℕ → Transaction

-- `drawn` counts the identifiers generated so far.
pub record InMemoryWalletStorage : Type 0 where
  pub heap : Heap
  pub drawn : ℕ
  pub last_seen_block_hash : String
  pub accounts : List Account
  pub transactions : List ℕ
  pub hot_wallet_address : String
  pub money_required_from_cold_storage : ℕ
  pub wallet_operation_lock : String
  pub hot_wallet_address_was_set : Bool

abbrev pub write : ℕ → Transaction → Heap → Heap
write p t heap q = if q == p then t else heap q

-- The loops over `s.transactions` that return at the first match.
abbrev pub find_first : (Transaction → Bool) → Heap → List ℕ → Option ℕ
find_first test heap [] = none
find_first test heap (p ∷ ps) = if test (heap p) then some p else find_first test heap ps

abbrev pub has_id : ℕ → Transaction → Bool
has_id id t = t.id == id

abbrev pub has_hash : String → Transaction → Bool
has_hash hash t = str_eq t.hash hash

abbrev pub same_hash_direction_address : Transaction → Transaction → Bool
same_hash_direction_address tx t =
    str_eq t.hash tx.hash && same_direction t.direction tx.direction && str_eq t.address tx.address

abbrev pub pointer_or : Monad.Error → Option ℕ → Outcome ℕ
pointer_or e none = err e
pointer_or e (some p) = ok p

unfoldable pub get_transaction_by_id : ℕ → M InMemoryWalletStorage ℕ
get_transaction_by_id id s =
    (pointer_or (Monad.no_tx_with_such_id id) (find_first (has_id id) s.heap s.transactions), s)

unfoldable pub get_transaction_by_hash : String → M InMemoryWalletStorage ℕ
get_transaction_by_hash hash s = (
  pointer_or (Monad.external "Transaction with hash not found")
      (find_first (has_hash hash) s.heap s.transactions),
  s,
)

unfoldable pub get_transaction_by_hash_direction_and_address :
    Transaction → M InMemoryWalletStorage ℕ
get_transaction_by_hash_direction_and_address tx s = (
  pointer_or (Monad.external "Transaction with such hash, direction and address is not in db")
      (find_first (same_hash_direction_address tx) s.heap s.transactions),
  s,
)

-- The searches of StoreTransaction: the two lookups end in no other error than that there is no
-- such transaction, which means that it is new.
abbrev pub find_by_hash : Transaction → InMemoryWalletStorage → Option ℕ → Option ℕ
find_by_hash tx s (some existing) = some existing
find_by_hash tx s none =
    if not (str_eq tx.hash "")
    then find_first (same_hash_direction_address tx) s.heap s.transactions
    else none

abbrev pub find_existing : Transaction → InMemoryWalletStorage → Option ℕ
find_existing tx s =
    find_by_hash tx s
      (if not (tx.id == 0) then find_first (has_id tx.id) s.heap s.transactions else none)

-- `existingTransaction.Update(transaction)` through the pointer.
abbrev pub update_at : ℕ → Option Transaction → M InMemoryWalletStorage ℕ
update_at q none s = (panic Monad.other_hash, s)
update_at q (some t) s = (ok q, record s { heap = write q t s.heap })

abbrev pub append : ℕ → M InMemoryWalletStorage ℕ
append p s = (ok p, record s { transactions = s.transactions ++ p ∷ [] })

-- The identifier drawn, or the panic of `uuid.Must`.
abbrev pub set_id : ℕ → Outcome ℕ → M InMemoryWalletStorage ℕ
set_id p (ok i) s =
    append p
      (record s { heap = write p (record (s.heap p) { id = i }) s.heap; drawn = suc s.drawn })
set_id p (err e) s = (panic (Monad.failed e), s)
set_id p (panic x) s = (panic x, s)

-- The generator of identifiers is a parameter: what it gives at its n-th call.
module _ (new_v4 : ℕ → Outcome ℕ) where
  abbrev pub store_new : ℕ → M InMemoryWalletStorage ℕ
  store_new p s = if (s.heap p).id == 0 then set_id p (new_v4 s.drawn) s else append p s

  abbrev pub store_at : ℕ → Option ℕ → M InMemoryWalletStorage ℕ
  store_at p (some q) s = update_at q (Transaction.update (s.heap q) (s.heap p)) s
  store_at p none s = store_new p s

  unfoldable pub store_transaction : ℕ → M InMemoryWalletStorage ℕ
  store_transaction p s = store_at p (find_existing (s.heap p) s) s

-- The loops that collect what passes a test.
abbrev pub collect : (Transaction → Bool) → M InMemoryWalletStorage (List ℕ)
collect test s = (ok (keep (λ p. test (s.heap p)) s.transactions), s)

unfoldable pub get_broadcasted_transactions_with_less_confirmations :
    ℤ → M InMemoryWalletStorage (List ℕ)
get_broadcasted_transactions_with_less_confirmations n =
    collect λ t. not (str_eq t.hash "") && ltb_ℤ t.reported_confirmations n

unfoldable pub get_pending_transactions : M InMemoryWalletStorage (List ℕ)
get_pending_transactions =
    collect
      λ t. same_status t.status Status.pending || same_status t.status Status.pending_cold_storage

unfoldable pub get_transactions_with_filter : String → String → M InMemoryWalletStorage (List ℕ)
get_transactions_with_filter direction_filter status_filter = collect λ t.
    (str_eq direction_filter "" || str_eq direction_filter (direction_string t.direction))
    && (str_eq status_filter "" || str_eq status_filter (status_string t.status))

unfoldable pub update_reported_confirmations : Transaction → ℤ → M InMemoryWalletStorage (Unit {0})
update_reported_confirmations tx n = get_transaction_by_id tx.id >>= λ p.
    modify
      λ s. record s { heap = write p (record (s.heap p) { reported_confirmations = n }) s.heap }

abbrev pub find_account : String → List Account → Option Account
find_account address [] = none
find_account address (a ∷ r) = if str_eq a.address address then some a else find_account address r

abbrev pub get_account_by_address : String → M InMemoryWalletStorage (Option Account)
get_account_by_address address = gets λ s. find_account address s.accounts

abbrev pub store_account : Account → M InMemoryWalletStorage (Unit {0})
store_account account = modify λ s. record s { accounts = s.accounts ++ account ∷ [] }

abbrev pub get_last_seen_block_hash : M InMemoryWalletStorage String
get_last_seen_block_hash = gets λ s. s.last_seen_block_hash

abbrev pub set_last_seen_block_hash : String → M InMemoryWalletStorage (Unit {0})
set_last_seen_block_hash hash = modify λ s. record s { last_seen_block_hash = hash }

abbrev pub get_money_required_from_cold_storage : M InMemoryWalletStorage ℕ
get_money_required_from_cold_storage = gets λ s. s.money_required_from_cold_storage

abbrev pub set_money_required_from_cold_storage : ℕ → M InMemoryWalletStorage (Unit {0})
set_money_required_from_cold_storage n =
    modify λ s. record s { money_required_from_cold_storage = n }

abbrev pub get_hot_wallet_address : M InMemoryWalletStorage String
get_hot_wallet_address s = (
  if str_eq s.hot_wallet_address "" && not s.hot_wallet_address_was_set
      then err Monad.hot_wallet_not_generated
      else ok s.hot_wallet_address,
  s,
)

abbrev pub set_hot_wallet_address : String → M InMemoryWalletStorage (Unit {0})
set_hot_wallet_address address =
    modify λ s. record s { hot_wallet_address = address; hot_wallet_address_was_set = true }

-- encoding/json is a parameter.
abbrev pub lock_wallet :
    (Transaction → Outcome String) → Transaction → M InMemoryWalletStorage (Unit {0})
lock_wallet marshal operation =
    lift (marshal operation) >>= λ text. modify λ s. record s { wallet_operation_lock = text }

abbrev pub clear_wallet : M InMemoryWalletStorage (Unit {0})
clear_wallet = modify λ s. record s { wallet_operation_lock = "" }

abbrev pub check_wallet_lock : M InMemoryWalletStorage (Bool × String)
check_wallet_lock = gets λ s. (str_eq s.wallet_operation_lock "", s.wallet_operation_lock)
