-- ===== src/Wallet/Tests/Memory.antt =====
-- The theorems on wallet/memorystorage.go at a storage with one transaction.
use bitcoin_processing.Base.{◌≡◌, refl, ℕ, zero, ◌+◌, [], ◌∷◌, false, arith}
use bitcoin_processing.Types.Transaction
use bitcoin_processing.Types.Transaction.{Transaction}
use bitcoin_processing.Monad.{Outcome, ok}
use bitcoin_processing.Wallet.Memory.{
  Heap, InMemoryWalletStorage, store_transaction, get_transaction_by_id,
}
use bitcoin_processing.Wallet.Memory.Identifiers.{UniqueIds, Fresh, store_transaction-UniqueIds}
use bitcoin_processing.Wallet.Memory.Sharing.{get_transaction_by_id-store_transaction_shared}
use bitcoin_processing.Wallet.Tests.Tables.{payment, stored_payment}

-- Object 0 is stored; object 1 is a payment without an identifier.
abbrev heap : Heap
heap zero = record stored_payment { hash = "other" }
heap _ = payment

abbrev storage : InMemoryWalletStorage
storage = record {
  heap = heap;
  drawn = 0;
  last_seen_block_hash = "";
  accounts = [];
  transactions = 0 ∷ [];
  hot_wallet_address = "";
  money_required_from_cold_storage = 0;
  wallet_operation_lock = "";
  hot_wallet_address_was_set = false;
}

abbrev new_v4 : ℕ → Outcome ℕ
new_v4 n = ok (10 + n)

unique : UniqueIds storage
unique = record { distinct = ((tt), tt); not_nil = ((λ h. omega arith), tt) }

fresh : Fresh new_v4 storage
fresh = ((λ h. omega arith), ((λ h. omega arith), tt))

store_transaction-UniqueIds_example : UniqueIds (store_transaction new_v4 1 storage).1
store_transaction-UniqueIds_example = store_transaction-UniqueIds new_v4 1 storage unique fresh

get_transaction_by_id-store_transaction_shared_example :
    get_transaction_by_id 10 (store_transaction new_v4 1 storage).1
    ≡ (ok 1, (store_transaction new_v4 1 storage).1)
unfolding store_transaction Transaction.update
get_transaction_by_id-store_transaction_shared_example =
    get_transaction_by_id-store_transaction_shared new_v4 1 1 storage
      (store_transaction new_v4 1 storage).1.heap unique fresh refl (refl, (refl, tt))
