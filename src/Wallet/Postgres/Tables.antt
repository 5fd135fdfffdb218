-- ===== src/Wallet/Postgres/Tables.antt =====
-- The table `transactions` as a map from identifiers to rows, and what the statements do to it:
-- what StoreTransaction of wallet/postgresstorage.go relies on.
pub mod Finding
pub mod Storing
pub mod RoundTrip
use bitcoin_processing.Base.{
  ◌≡◌, ◌≢◌, ℕ, ◌==◌, String, Option, none, some, List, [], ◌∷◌, if◌then◌else◌,
}
use bitcoin_processing.Base.Int.{ℤ}
use bitcoin_processing.Types.Json.{Json}
use bitcoin_processing.Types.Direction.{direction_string}
use bitcoin_processing.Types.Transaction.{Transaction}
use bitcoin_processing.Monad
use bitcoin_processing.Monad.{ok, err}
use bitcoin_processing.Storage.Meta.{Value, uuid, string, int64, uint64, flag, null}
use bitcoin_processing.Wallet.Postgres.{
  TransactionRow, Driver, select_by_id, select_by_hash_direction_address, update_transaction,
  insert_transaction,
}

abbrev pub Table : Type 0
Table = ℕ → Option TransactionRow

abbrev pub map_row :
    (TransactionRow → TransactionRow) → Option TransactionRow → Option TransactionRow
map_row f none = none
map_row f (some row) = some (f row)

abbrev pub change_row : ℕ → (TransactionRow → TransactionRow) → Table → Table
change_row id f rows i = if i == id then map_row f (rows i) else rows i

abbrev pub put_row : ℕ → TransactionRow → Table → Table
put_row id row rows i = if i == id then some row else rows i

-- The columns of a row in the order of INSERT, and the arguments of UPDATE with what they set.
abbrev pub text_or_null : Option String → Value
text_or_null none = null
text_or_null (some text) = string text

abbrev pub row_values : TransactionRow → List Value
row_values row =
    uuid row.id
    ∷ string row.hash
    ∷ string row.block_hash
    ∷ int64 row.confirmations
    ∷ string row.address
    ∷ string row.direction
    ∷ string row.status
    ∷ uint64 row.amount
    ∷ text_or_null row.metainfo_json
    ∷ uint64 row.fee
    ∷ string row.fee_type
    ∷ flag row.cold_storage
    ∷ int64 row.reported_confirmations
    ∷ []

abbrev pub changed_values : String → String → ℤ → String → ℕ → List Value
changed_values hash block_hash confirmations status id =
    string hash ∷ string block_hash ∷ int64 confirmations ∷ string status ∷ uuid id ∷ []

abbrev pub set_columns : String → String → ℤ → String → TransactionRow → TransactionRow
set_columns h b c st row = record row { hash = h; block_hash = b; confirmations = c; status = st }

-- The column `metainfo` is JSONB: what it gives back of a text is another text of the same value.
abbrev pub map_text : (String → String) → Option String → Option String
map_text f none = none
map_text f (some text) = some (f text)

abbrev pub as_stored : (String → String) → TransactionRow → TransactionRow
as_stored jsonb row = record row { metainfo_json = map_text jsonb row.metainfo_json }

-- A row with the hash, the direction and the address of a transaction.
abbrev pub Matches : Transaction → TransactionRow → Type 0
Matches tx row =
    (row.hash ≡ tx.hash)
    × (row.direction ≡ direction_string tx.direction)
    × (row.address ≡ tx.address)

-- `jsonb` says which text a JSONB column gives back for one that it was given; json.Unmarshal reads
-- from it what it reads from a text that json.Marshal wrote. A statement that fails leaves the
-- table as it was, and so do a query and a new identifier. An identifier is a primary key.
-- json.Unmarshal does not answer that there are no rows.
pub record TableLaws {Db : Type 0} (s : Driver Db) : Type 0 where
  pub rows : Db → Table
  pub jsonb : String → String
  pub jsonb_read :
      (j : Json) (text : String)
      → s.marshal j ≡ ok text
      → s.unmarshal (jsonb text) ≡ s.unmarshal text
  pub id_rows :
      (i : ℕ) (d : Db) → rows (s.query_transaction select_by_id (uuid i ∷ []) d).1 ≡ rows d
  pub id_found :
      (i : ℕ) (d : Db) (row : TransactionRow)
      → (s.query_transaction select_by_id (uuid i ∷ []) d).0 ≡ ok row
      → (row.id ≡ i) × (rows d i ≡ some row)
  pub id_missing :
      (i : ℕ) (d : Db)
      → (s.query_transaction select_by_id (uuid i ∷ []) d).0 ≡ err Monad.no_rows
      → rows d i ≡ none
  pub hash_rows :
      (tx : Transaction) (d : Db)
      → rows
          (s.query_transaction select_by_hash_direction_address
            (string tx.hash ∷ string (direction_string tx.direction) ∷ string tx.address ∷ [])
            d).1
        ≡ rows d
  pub hash_found :
      (tx : Transaction) (d : Db) (row : TransactionRow)
      → (s.query_transaction select_by_hash_direction_address
          (string tx.hash ∷ string (direction_string tx.direction) ∷ string tx.address ∷ [])
          d).0
        ≡ ok row
      → Matches tx row × (rows d row.id ≡ some row)
  pub hash_missing :
      (tx : Transaction) (d : Db)
      → (s.query_transaction select_by_hash_direction_address
          (string tx.hash ∷ string (direction_string tx.direction) ∷ string tx.address ∷ [])
          d).0
        ≡ err Monad.no_rows
      → (i : ℕ) (row : TransactionRow) → rows d i ≡ some row
      → ¬ Matches tx row
  pub update_ok :
      (hash block_hash status : String) (confirmations : ℤ) (i : ℕ) (d : Db)
      → (s.exec update_transaction (changed_values hash block_hash confirmations status i) d).0
        ≡ ok tt
      → rows (s.exec update_transaction (changed_values hash block_hash confirmations status i) d).1
        ≡ change_row i (set_columns hash block_hash confirmations status) (rows d)
  pub update_failed :
      (hash block_hash status : String) (confirmations : ℤ) (i : ℕ) (d : Db)
      → (s.exec update_transaction (changed_values hash block_hash confirmations status i) d).0
        ≢ ok tt
      → rows (s.exec update_transaction (changed_values hash block_hash confirmations status i) d).1
        ≡ rows d
  pub insert_ok :
      (row : TransactionRow) (d : Db)
      → (s.exec insert_transaction (row_values row) d).0 ≡ ok tt
      → (rows d row.id ≡ none)
        × (rows (s.exec insert_transaction (row_values row) d).1
            ≡ put_row row.id (as_stored jsonb row) (rows d))
  pub insert_failed :
      (row : TransactionRow) (d : Db)
      → (s.exec insert_transaction (row_values row) d).0 ≢ ok tt
      → rows (s.exec insert_transaction (row_values row) d).1 ≡ rows d
  pub new_uuid_rows : (d : Db) → rows (s.new_uuid d).1 ≡ rows d
  pub unmarshal_error : (text : String) → s.unmarshal text ≢ err Monad.no_rows
