-- ===== src/Wallet/Postgres.antt =====
-- wallet/postgresstorage.go: the storage of the wallet in SQL tables. A statement is the text of
-- the source with its arguments; the driver that runs it is a parameter, as are encoding/json,
-- strconv and the generator of identifiers.
pub mod Methods
pub mod Reads
pub mod Tables
pub mod Values
use Prim.Native.String.{◌++◌ as and_text}
use bitcoin_processing.Base.{
  ℕ, suc, ◌==◌, String, str_eq, Bool, true, false, not, ◌&&◌, Option, none, some, List, [], ◌∷◌,
  ◌++◌, if◌then◌else◌,
}
use bitcoin_processing.Base.Int.{ℤ}
use bitcoin_processing.Bitcoin.Fee.{fee_type_string, fee_type_from_string}
use bitcoin_processing.Types.Json.{Json}
use bitcoin_processing.Types.Status.{
  TransactionStatus, status_string, transaction_status_from_string,
}
use bitcoin_processing.Types.Direction.{
  TransactionDirection, direction_string, transaction_direction_from_string,
}
use bitcoin_processing.Types.Transaction
use bitcoin_processing.Types.Transaction.{Transaction}
use bitcoin_processing.Events.Types.{Account}
use bitcoin_processing.Monad
use bitcoin_processing.Monad.{Outcome, ok, err, panic, M, pure, fail, throw, lift, ◌>>=◌, ◌>>◌}
use bitcoin_processing.Storage.Meta.{
  Value, uuid, string, int64, uint64, flag, SqlQueryExecutor, get_meta, set_meta,
}
use bitcoin_processing.Wallet.Interfaces.{Storage}

-- The variables that `transactionFromDatabaseRow` scans a row into.
pub record TransactionRow : Type 0 where
  pub id : ℕ
  pub hash : String
  pub block_hash : String
  pub confirmations : ℤ
  pub address : String
  pub direction : String
  pub status : String
  pub amount : ℕ
  pub metainfo_json : Option String
  pub fee : ℕ
  pub fee_type : String
  pub cold_storage : Bool
  pub reported_confirmations : ℤ

-- What `Query` returns: how each Scan ends, and `Err()` after the last row.
pub record Rows (A : Type 0) : Type 0 where
  pub scans : List (Outcome A)
  pub rows_err : Option Monad.Error

-- The driver and the libraries. `query_transaction` and `query_transactions` are QueryRow and Query
-- with Scan into the thirteen variables.
pub record Driver (Db : Type 0) : Type 0 where
  pub executor : SqlQueryExecutor Db
  pub open executor use *
  pub query_transaction : String → List Value → M Db TransactionRow
  pub query_transactions : String → List Value → M Db (Rows TransactionRow)
  pub marshal : Json → Outcome String
  pub unmarshal : String → Outcome Json
  pub marshal_operation : Transaction → Outcome String
  pub format_uint : ℕ → String
  pub parse_uint : String → Outcome ℕ
  pub new_uuid : M Db ℕ

abbrev pub then_do : {A B : Type 0} → Outcome A → (A → Outcome B) → Outcome B
then_do (ok a) f = f a
then_do (err e) f = err e
then_do (panic p) f = panic p

-- A value and an error, as the functions `FromString` return them.
abbrev pub checked : {A : Type 0} → A × Option String → Outcome A
checked (a, none) = ok a
checked (a, some s) = err (Monad.external s)

abbrev pub transaction_fields : String
transaction_fields =
    "id, hash, block_hash, confirmations, address, direction, status, amount, metainfo, fee, fee_type, cold_storage, reported_confirmations"

abbrev pub select_transactions : String → String
select_transactions rest =
    and_text "SELECT " (and_text transaction_fields (and_text " FROM transactions" rest))

abbrev pub select_by_hash : String
select_by_hash = select_transactions " WHERE hash = $1"

abbrev pub select_by_hash_direction_address : String
select_by_hash_direction_address =
    select_transactions " WHERE hash = $1 and direction = $2 and address = $3"

abbrev pub select_by_id : String
select_by_id = select_transactions " WHERE id = $1"

abbrev pub update_transaction : String
update_transaction =
    "UPDATE transactions SET hash = $1, block_hash = $2, confirmations = $3, status = $4 WHERE id = $5"

abbrev pub insert_transaction : String
insert_transaction = and_text "INSERT INTO transactions (" (
    and_text transaction_fields ") VALUES ($1, $2, $3, $4, $5, $6, $7, $8, $9, $10, $11, $12, $13)")

abbrev pub uuid_or_panic : Outcome ℕ → Outcome ℕ
uuid_or_panic (ok i) = ok i
uuid_or_panic (err e) = panic (Monad.failed e)
uuid_or_panic (panic p) = panic p

abbrev pub update_or_panic : Option Transaction → Outcome Transaction
update_or_panic none = panic Monad.other_hash
update_or_panic (some t) = ok t

-- The two switches on the error of a lookup: found, not there (`sql.ErrNoRows`), or an error.
abbrev pub found_or_none : Outcome Transaction → Outcome (Option Transaction)
found_or_none (ok t) = ok (some t)
found_or_none (err Monad.no_rows) = ok none
found_or_none (err e) = err e
found_or_none (panic p) = panic p

abbrev pub insert_values : Transaction → String → List Value
insert_values tx metainfo_json =
    uuid tx.id
    ∷ string tx.hash
    ∷ string tx.block_hash
    ∷ int64 tx.confirmations
    ∷ string tx.address
    ∷ string (direction_string tx.direction)
    ∷ string (status_string tx.status)
    ∷ uint64 tx.amount
    ∷ string metainfo_json
    ∷ uint64 tx.fee
    ∷ string (fee_type_string tx.fee_type)
    ∷ flag tx.cold_storage
    ∷ int64 tx.reported_confirmations
    ∷ []

abbrev pub update_values : Transaction → ℕ → List Value
update_values tx id =
    string tx.hash
    ∷ string tx.block_hash
    ∷ int64 tx.confirmations
    ∷ string (status_string tx.status)
    ∷ uuid id
    ∷ []

-- A failed statement is reported with more text around its error.
abbrev pub wrap_error : String → Outcome (Unit {0}) → Outcome (Unit {0})
wrap_error text (ok u) = ok u
wrap_error text (err e) = err (Monad.wrapped text e)
wrap_error text (panic p) = panic p

-- The transaction of a row. An unknown fee type gives the invalid one, without an error.
abbrev pub assemble : TransactionRow → TransactionDirection → TransactionStatus → Json → Transaction
assemble row direction status metainfo = record {
  id = row.id;
  hash = row.hash;
  block_hash = row.block_hash;
  confirmations = row.confirmations;
  address = row.address;
  direction = direction;
  status = status;
  amount = row.amount;
  metainfo = metainfo;
  fee = row.fee;
  fee_type = (fee_type_from_string row.fee_type).0;
  cold_storage = row.cold_storage;
  fresh = false;
  reported_confirmations = row.reported_confirmations;
}

module _ {Db : Type 0} (s : Driver Db) where
  abbrev pub unmarshal_metainfo : Option String → Outcome Json
  unmarshal_metainfo none = ok Json.null
  unmarshal_metainfo (some text) = s.unmarshal text

  unfoldable pub transaction_from_database_row : Outcome TransactionRow → Outcome Transaction
  transaction_from_database_row scanned = then_do scanned λ row.
      then_do (checked (transaction_direction_from_string row.direction)) λ direction.
        then_do (checked (transaction_status_from_string row.status)) λ status.
          then_do (unmarshal_metainfo row.metainfo_json)
            λ metainfo. ok (assemble row direction status metainfo)

  abbrev pub query_one : String → List Value → M Db Transaction
  query_one query args d =
      let (r, d') = s.query_transaction query args d in (transaction_from_database_row r, d')

  abbrev pub get_transaction_by_hash : String → M Db Transaction
  get_transaction_by_hash hash = query_one select_by_hash (string hash ∷ [])

  abbrev pub get_transaction_by_hash_direction_and_address : Transaction → M Db Transaction
  get_transaction_by_hash_direction_and_address tx =
      query_one select_by_hash_direction_address
        (string tx.hash ∷ string (direction_string tx.direction) ∷ string tx.address ∷ [])

  abbrev pub get_transaction_by_id : ℕ → M Db Transaction
  get_transaction_by_id id = query_one select_by_id (uuid id ∷ [])

  abbrev pub look_up : M Db Transaction → M Db (Option Transaction)
  look_up find d = let (r, d') = find d in (found_or_none r, d')

  -- The search by hash, for a transaction that was not found by its id.
  abbrev pub find_by_hash : Transaction → Option Transaction → M Db (Option Transaction)
  find_by_hash tx (some existing) = pure (some existing)
  find_by_hash tx none =
      if not (str_eq tx.hash "")
      then look_up (get_transaction_by_hash_direction_and_address tx)
      else pure none

  abbrev pub find_by_id : Transaction → M Db (Option Transaction)
  find_by_id tx = if not (tx.id == 0) then look_up (get_transaction_by_id tx.id) else pure none

  unfoldable pub find_existing : Transaction → M Db (Option Transaction)
  find_existing tx = find_by_id tx >>= find_by_hash tx

  abbrev pub exec_wrapped : String → String → List Value → M Db (Unit {0})
  exec_wrapped text query args d = let (r, d') = s.exec query args d in (wrap_error text r, d')

  unfoldable pub update_existing : Transaction → Transaction → M Db (Transaction × Transaction)
  update_existing tx existing = do
    exec_wrapped "Update of tx data in DB failed" update_transaction (update_values tx existing.id)
    updated ← lift (update_or_panic (Transaction.update existing tx))
    pure (tx, updated)

  abbrev pub new_v4 : M Db ℕ
  new_v4 d = let (r, d') = s.new_uuid d in (uuid_or_panic r, d')

  abbrev pub with_id : Transaction → M Db Transaction
  with_id tx = if tx.id == 0 then new_v4 >>= (λ i. pure (record tx { id = i })) else pure tx

  abbrev pub insert_row : Transaction → M Db (Transaction × Transaction)
  insert_row tx = do
    metainfo_json ← lift (s.marshal tx.metainfo)
    exec_wrapped "Failed to insert new tx into DB" insert_transaction
        (insert_values tx metainfo_json)
    pure (tx, tx)

  unfoldable pub insert_new : Transaction → M Db (Transaction × Transaction)
  insert_new tx = with_id tx >>= insert_row

  abbrev pub update_or_insert : Transaction → Option Transaction → M Db (Transaction × Transaction)
  update_or_insert tx (some existing) = update_existing tx existing
  update_or_insert tx none = insert_new tx

  -- StoreTransaction: its argument as the call leaves it, and the stored transaction.
  unfoldable pub store_transaction : Transaction → M Db (Transaction × Transaction)
  store_transaction tx = find_existing tx >>= update_or_insert tx
