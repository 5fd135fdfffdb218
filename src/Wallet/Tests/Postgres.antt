-- ===== src/Wallet/Tests/Postgres.antt =====
-- The theorems on wallet/postgresstorage.go at a database that meets the laws.
use bitcoin_processing.Base.{◌≡◌, refl, false}
use bitcoin_processing.Monad.Inversion.{Result}
use bitcoin_processing.Storage.Meta.{set_meta}
use bitcoin_processing.Wallet.Postgres.{
  transaction_from_database_row, find_existing, insert_new, store_transaction,
  get_transaction_by_id,
}
use bitcoin_processing.Wallet.Postgres.Methods.{
  get_money_required_from_cold_storage, set_money_required_from_cold_storage,
}
use bitcoin_processing.Wallet.Postgres.Tables.Storing.{Stored, store_transaction-Stored}
use bitcoin_processing.Wallet.Postgres.Tables.RoundTrip.{get_transaction_by_id-store_transaction}
use bitcoin_processing.Wallet.Postgres.Values.{get_money-set_money}
use bitcoin_processing.Wallet.Tests.Tables.Places.{driver, view}
use bitcoin_processing.Wallet.Tests.Tables.{
  sheet, payment, stored_payment, table_laws, meta_laws, json_back,
}

store_transaction-Stored_example :
    Stored driver table_laws.jsonb payment
      (view sheet)
      (view (store_transaction driver payment sheet).1)
      (store_transaction driver payment sheet).0
store_transaction-Stored_example = store_transaction-Stored driver table_laws payment sheet

get_transaction_by_id-store_transaction_example :
    Result
      (λ u. u ≡ (record stored_payment { fresh = false }))
      (get_transaction_by_id driver 3 (store_transaction driver payment sheet).1).0
unfolding store_transaction find_existing insert_new transaction_from_database_row
get_transaction_by_id-store_transaction_example =
    get_transaction_by_id-store_transaction driver table_laws payment stored_payment stored_payment
      sheet (λ h. cc) (λ h. cc) json_back refl

get_money-set_money_example :
    Result
      (λ n. n ≡ 7)
      (get_money_required_from_cold_storage driver
        (set_money_required_from_cold_storage driver 7 sheet).1).0
unfolding set_money_required_from_cold_storage set_meta
get_money-set_money_example = get_money-set_money driver meta_laws 7 sheet refl refl
