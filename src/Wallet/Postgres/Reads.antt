-- ===== src/Wallet/Postgres/Reads.antt =====
-- Reading a row back: `transactionFromDatabaseRow` of wallet/postgresstorage.go against what
-- StoreTransaction writes.
use bitcoin_processing.Base.{◌≡◌, ◌≢◌, refl, ap, String, some, false}
use bitcoin_processing.Bitcoin.Fee.{fee_type_string}
use bitcoin_processing.Bitcoin.Names.{fee_type_names}
use bitcoin_processing.Types.Json.{Json}
use bitcoin_processing.Types.Status.{
  TransactionStatus, status_string, transaction_status_from_string,
}
use bitcoin_processing.Types.Direction.{
  TransactionDirection, direction_string, transaction_direction_from_string,
}
use bitcoin_processing.Types.Names.{status_names, direction_names}
use bitcoin_processing.Types.Transaction.{Transaction}
use bitcoin_processing.Monad.{Outcome, ok, err, panic}
use bitcoin_processing.Wallet.Postgres.{
  TransactionRow, Driver, then_do, checked, assemble, unmarshal_metainfo,
  transaction_from_database_row,
}

-- The row whose values INSERT is given.
abbrev pub row_of : Transaction → String → TransactionRow
row_of tx metainfo_json = record {
  id = tx.id;
  hash = tx.hash;
  block_hash = tx.block_hash;
  confirmations = tx.confirmations;
  address = tx.address;
  direction = direction_string tx.direction;
  status = status_string tx.status;
  amount = tx.amount;
  metainfo_json = some metainfo_json;
  fee = tx.fee;
  fee_type = fee_type_string tx.fee_type;
  cold_storage = tx.cold_storage;
  reported_confirmations = tx.reported_confirmations;
}

-- What UPDATE makes of a row.
abbrev pub updated_row : Transaction → TransactionRow → TransactionRow
updated_row tx row = record row {
  hash = tx.hash;
  block_hash = tx.block_hash;
  confirmations = tx.confirmations;
  status = status_string tx.status;
}

abbrev pub updated : Transaction → Transaction → Transaction
updated tx existing = record existing {
  hash = tx.hash;
  block_hash = tx.block_hash;
  confirmations = tx.confirmations;
  status = tx.status;
}

-- `String` gives back what `FromString` reads.
checked_status :
    (ts : TransactionStatus)
    → ts ≢ TransactionStatus.invalid
    → checked (transaction_status_from_string (status_string ts)) ≡ ok ts
checked_status ts h = rw ((status_names (status_string ts) ts).1 (refl, h)) refl

checked_direction :
    (td : TransactionDirection)
    → td ≢ TransactionDirection.invalid
    → checked (transaction_direction_from_string (direction_string td)) ≡ ok td
checked_direction td h = rw ((direction_names (direction_string td) td).1 (refl, h)) refl

-- The three parsed columns of a row that reads as a transaction.
abbrev pub parsed :
    TransactionRow
    → Outcome TransactionDirection
    → Outcome TransactionStatus
    → Outcome Json
    → Outcome Transaction
parsed row d t m = then_do d λ direction.
    then_do t λ status. then_do m λ metainfo. ok (assemble row direction status metainfo)

parsed-updated_row :
    (tx existing : Transaction) (row : TransactionRow) (d : Outcome TransactionDirection)
    (t : Outcome TransactionStatus) (m : Outcome Json)
    → parsed row d t m ≡ ok existing
    → parsed (updated_row tx row) d (ok tx.status) m ≡ ok (updated tx existing)
parsed-updated_row tx existing row (ok d) (ok t) (ok m) h =
    ap (λ r. then_do r (λ e. ok (updated tx e))) h
parsed-updated_row tx existing row (ok d) (ok t) (err e) h = cc
parsed-updated_row tx existing row (ok d) (ok t) (panic p) h = cc
parsed-updated_row tx existing row (ok d) (err e) m h = cc
parsed-updated_row tx existing row (ok d) (panic p) m h = cc
parsed-updated_row tx existing row (err e) t m h = cc
parsed-updated_row tx existing row (panic p) t m h = cc

module _ {Db : Type 0} (s : Driver Db) where
  -- The row of a transaction reads as that transaction, not fresh any more.
  pub read-row_of :
      (tx : Transaction) (text : String)
      → tx.direction ≢ TransactionDirection.invalid
      → tx.status ≢ TransactionStatus.invalid
      → s.unmarshal text ≡ ok tx.metainfo
      → transaction_from_database_row s (ok (row_of tx text)) ≡ ok (record tx { fresh = false })
  unfolding transaction_from_database_row
  read-row_of tx text d t m =
      rw
        (
          checked_direction tx.direction d,
          checked_status tx.status t,
          m,
          (fee_type_names (fee_type_string tx.fee_type) tx.fee_type).1 refl,
        )
        refl

  -- Where a row reads as a transaction, the updated row reads as the updated transaction.
  pub read-updated_row :
      (tx : Transaction) (row : TransactionRow) {existing : Transaction}
      → tx.status ≢ TransactionStatus.invalid
      → transaction_from_database_row s (ok row) ≡ ok existing
      → transaction_from_database_row s (ok (updated_row tx row)) ≡ ok (updated tx existing)
  unfolding transaction_from_database_row
  read-updated_row tx row {existing = existing} t h = rw (checked_status tx.status t) (
      parsed-updated_row tx existing row (checked (transaction_direction_from_string row.direction))
        (checked (transaction_status_from_string row.status))
        (unmarshal_metainfo s row.metainfo_json) h)
