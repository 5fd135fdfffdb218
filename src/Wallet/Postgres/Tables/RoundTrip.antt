-- ===== src/Wallet/Postgres/Tables/RoundTrip.antt =====
-- StoreTransaction followed by GetTransactionByID (wallet/postgresstorage.go).
use bitcoin_processing.Base.{
  ◌≡◌, ◌≢◌, sym, ap, ◌∙◌, ℕ, String, Option, some, Bool, false, str_eq_iff, arith, [], ◌∷◌,
}
use bitcoin_processing.Types.Json.{Json}
use bitcoin_processing.Types.Status.{TransactionStatus, transaction_status_from_string}
use bitcoin_processing.Types.Direction.{TransactionDirection, transaction_direction_from_string}
use bitcoin_processing.Types.Transaction
use bitcoin_processing.Types.Transaction.{Transaction}
use bitcoin_processing.Monad.{Outcome, ok, err, panic}
use bitcoin_processing.Monad.Inversion.{Result, Result-of}
use bitcoin_processing.Storage.Meta.{uuid}
use bitcoin_processing.Wallet.Postgres.{
  TransactionRow, Driver, checked, unmarshal_metainfo, transaction_from_database_row,
  store_transaction, get_transaction_by_id, select_by_id,
}
use bitcoin_processing.Wallet.Postgres.Reads.{
  row_of, updated_row, updated, parsed, read-row_of, read-updated_row,
}
use bitcoin_processing.Wallet.Postgres.Tables.{Table, TableLaws, change_row, put_row}
use bitcoin_processing.Wallet.Postgres.Tables.Finding.{row_found}
use bitcoin_processing.Wallet.Postgres.Tables.Storing.{Stored, store_transaction-Stored}

-- What Update makes of a transaction, where it does not panic.
update-updated :
    (existing tx : Transaction) {u : Transaction}
    → Transaction.update existing tx ≡ some u
    → updated tx existing ≡ u
unfolding Transaction.update
update-updated existing tx {u = u} h =
    ground (arith, str_eq_iff existing.hash "", str_eq_iff existing.hash tx.hash)

parsed_id :
    (row : TransactionRow) (d : Outcome TransactionDirection) (t : Outcome TransactionStatus)
    (m : Outcome Json) {e : Transaction}
    → parsed row d t m ≡ ok e
    → (e.id ≡ row.id) × (e.fresh ≡ false)
parsed_id row (ok d) (ok t) (ok m) h = (cc, cc)
parsed_id row (ok d) (ok t) (err e) h = cc
parsed_id row (ok d) (ok t) (panic p) h = cc
parsed_id row (ok d) (err e) m h = cc
parsed_id row (ok d) (panic p) m h = cc
parsed_id row (err e) t m h = cc
parsed_id row (panic p) t m h = cc

changed_row :
    (i : ℕ) (f : TransactionRow → TransactionRow) (rows : Table) {row : TransactionRow}
    → rows i ≡ some row
    → change_row i f rows i ≡ some (f row)
changed_row i f rows h = rw h (ground arith)

stored_row : (i : ℕ) (row : TransactionRow) (rows : Table) → put_row i row rows i ≡ some row
stored_row i row rows = ground arith

ok_same : {A : Type 0} {a b : A} {o : Outcome A} → o ≡ ok a → o ≡ ok b → a ≡ b
ok_same h k = cc

some_same : {A : Type 0} {a b : A} {o : Option A} → o ≡ some a → o ≡ some b → a ≡ b
some_same h k = cc

module _ {Db : Type 0} (s : Driver Db) (laws : TableLaws s) where
  read_id :
      (row : TransactionRow) {e : Transaction}
      → transaction_from_database_row s (ok row) ≡ ok e
      → (e.id ≡ row.id) × (e.fresh ≡ false)
  unfolding transaction_from_database_row
  read_id row h =
      parsed_id row (checked (transaction_direction_from_string row.direction))
        (checked (transaction_status_from_string row.status))
        (unmarshal_metainfo s row.metainfo_json) h

  -- What GetTransactionByID returns is what the row in the table reads as.
  got_row :
      (i : ℕ) (d : Db) (row : TransactionRow) {u : Transaction}
      → laws.rows d i ≡ some row
      → (get_transaction_by_id s i d).0 ≡ ok u
      → transaction_from_database_row s (ok row) ≡ ok u
  got_row i d row {u = u} h k =
      let r = (s.query_transaction select_by_id (uuid i ∷ []) d).0 in
      let (found, q, reads) = row_found s laws r u k in
      rw (some_same h (laws.id_found i d found q).1) reads

  changed_back :
      (tx existing v u : Transaction) (row : TransactionRow) (before : Table) (d : Db)
      → tx.status ≢ TransactionStatus.invalid
      → before row.id ≡ some row
      → transaction_from_database_row s (ok row) ≡ ok existing
      → laws.rows d ≡ change_row existing.id (updated_row tx) before
      → updated tx existing ≡ v
      → (get_transaction_by_id s v.id d).0 ≡ ok u
      → u ≡ (record v { fresh = false })
  changed_back tx existing v u row before d st there reads w n g =
      let (same_id, old) = read_id row reads in
      let place : v.id ≡ row.id = ap (λ t. t.id) (sym n) ∙ same_id in
      let here : laws.rows d v.id ≡ some (updated_row tx row) =
        rw (place, w, same_id) (changed_row row.id (updated_row tx) before there) in
      let read : u ≡ updated tx existing =
        ok_same (got_row v.id d (updated_row tx row) here g) (read-updated_row s tx row st reads) in
      let with_fresh : Bool → Transaction → Transaction = λ b t. record t { fresh = b } in
      let not_fresh : updated tx existing ≡ (record (updated tx existing) { fresh = false }) =
        ap (λ b. with_fresh b (updated tx existing)) old in
      read ∙ not_fresh ∙ ap (with_fresh false) n

  added_back :
      (tx new u : Transaction) (text : String) (before : Table) (d : Db)
      → tx.direction ≢ TransactionDirection.invalid
      → tx.status ≢ TransactionStatus.invalid
      → s.unmarshal text ≡ ok tx.metainfo
      → new ≡ (record tx { id = new.id })
      → laws.rows d ≡ put_row new.id (row_of new text) before
      → (get_transaction_by_id s new.id d).0 ≡ ok u
      → u ≡ (record new { fresh = false })
  added_back tx new u text before d dir st m n w g =
      let here : laws.rows d new.id ≡ some (row_of new text) =
        rw w (stored_row new.id (row_of new text) before) in
      let dir' : new.direction ≡ tx.direction = ap (λ t. t.direction) n in
      let st' : new.status ≡ tx.status = ap (λ t. t.status) n in
      let meta : new.metainfo ≡ tx.metainfo = ap (λ t. t.metainfo) n in
      ok_same (got_row new.id d (row_of new text) here g)
        (read-row_of s new text (rw dir' dir) (rw st' st) (rw meta m))

  reads_back :
      (tx t p u : Transaction) (before : Table) (d : Db) (r : Outcome (Transaction × Transaction))
      → tx.direction ≢ TransactionDirection.invalid
      → tx.status ≢ TransactionStatus.invalid
      → ((text : String) → s.marshal tx.metainfo ≡ ok text → s.unmarshal text ≡ ok tx.metainfo)
      → Stored s laws.jsonb tx before (laws.rows d) r
      → r ≡ ok (p, t)
      → (get_transaction_by_id s t.id d).0 ≡ ok u
      → u ≡ (record t { fresh = false })
  reads_back tx t p u before d r dir st m (Stored.refused e w) q g = cc
  reads_back tx t p u before d r dir st m (Stored.crashed x w) q g = cc
  reads_back tx t p u before d r dir st m (Stored.clashed existing f w n) q g = cc
  reads_back tx t p u before d r dir st m
        (Stored.changed existing v (row, there, reads, sought) w n) q g =
      let same : v ≡ t = cc in
      rw same at (
        changed_back tx existing v u row before d st there reads w (update-updated existing tx n)
          (rw same g))
  reads_back tx t p u before d r dir st m (Stored.added new text a n i free marshalled w) q g =
      let same : new ≡ t = cc in
      let read = laws.jsonb_read tx.metainfo text marshalled ∙ m text marshalled in
      rw same at (added_back tx new u (laws.jsonb text) before d dir st read n w (rw same g))

  -- After StoreTransaction succeeded, GetTransactionByID for the identifier of the transaction it
  -- returned gives, where it succeeds, that transaction, no longer fresh: every field is read back
  -- as it was stored, whether a row was added or updated. The transaction stored has a valid
  -- direction and status, and json.Unmarshal reads its metainfo from what json.Marshal wrote.
  pub get_transaction_by_id-store_transaction :
      (tx t p : Transaction) (d : Db)
      → tx.direction ≢ TransactionDirection.invalid
      → tx.status ≢ TransactionStatus.invalid
      → ((text : String) → s.marshal tx.metainfo ≡ ok text → s.unmarshal text ≡ ok tx.metainfo)
      → (store_transaction s tx d).0 ≡ ok (p, t)
      → Result
          (λ u. u ≡ (record t { fresh = false }))
          (get_transaction_by_id s t.id (store_transaction s tx d).1).0
  get_transaction_by_id-store_transaction tx t p d dir st m h =
      let (r, after) = store_transaction s tx d in
      Result-of (λ u. u ≡ (record t { fresh = false })) (get_transaction_by_id s t.id after).0
        (λ u g.
          reads_back tx t p u (laws.rows d) after r dir st m (store_transaction-Stored s laws tx d)
            h g)
