-- ===== src/Wallet/Postgres/Tables/Storing.antt =====
-- StoreTransaction of wallet/postgresstorage.go against its abstract description: a step of the
-- table of rows.
use bitcoin_processing.Base.{
  ◌≡◌, ◌≢◌, ◌⊎◌, inl, inr, refl, sym, ap, ◌∙◌, ◌==◌, String, Option, none, some, Bool-cases, arith,
}
use bitcoin_processing.Types.Status.{status_string}
use bitcoin_processing.Types.Transaction
use bitcoin_processing.Types.Transaction.{Transaction}
use bitcoin_processing.Monad
use bitcoin_processing.Monad.{Error, Fault, Outcome, ok, err, panic, M, pure, lift, ◌>>=◌}
use bitcoin_processing.Monad.Inversion.{Result, Result-ok, by_first}
use bitcoin_processing.Wallet.Postgres.{
  Driver, find_existing, update_existing, with_id, insert_row, insert_new, update_or_insert,
  store_transaction, exec_wrapped, wrap_error, update_transaction, update_values,
  insert_transaction, insert_values, update_or_panic, new_v4,
}
use bitcoin_processing.Wallet.Postgres.Reads.{row_of, updated_row}
use bitcoin_processing.Wallet.Postgres.Tables.{Table, TableLaws, change_row, put_row}
use bitcoin_processing.Wallet.Postgres.Tables.Finding.{
  Absent, Found, Searched, find_existing-Searched,
}

-- What storing a transaction may do to the table, and what it returns: nothing, with an error or a
-- panic; an update of the row that is sought, with its transaction as Update changes it; that
-- update, and the panic of Update where the row has another hash; or a new row for a transaction
-- that the table has none for, under its identifier or a new one, with its metainfo as the JSONB
-- column gives it back.
pub data Stored {Db : Type 0} (s : Driver Db) (jsonb : String → String) (tx : Transaction)
    (before after : Table) : Outcome (Transaction × Transaction) → Type 0 where
  refused : (e : Error) → after ≡ before → Stored s jsonb tx before after (err e)
  crashed : (p : Fault) → after ≡ before → Stored s jsonb tx before after (panic p)
  changed :
      (existing u : Transaction)
      → Found s tx before existing
      → after ≡ change_row existing.id (updated_row tx) before
      → Transaction.update existing tx ≡ some u
      → Stored s jsonb tx before after (ok (tx, u))
  clashed :
      (existing : Transaction)
      → Found s tx before existing
      → after ≡ change_row existing.id (updated_row tx) before
      → Transaction.update existing tx ≡ none
      → Stored s jsonb tx before after (panic Monad.other_hash)
  added :
      (new : Transaction) (text : String)
      → Absent tx before
      → new ≡ (record tx { id = new.id })
      → (tx.id ≡ 0) ⊎ (new.id ≡ tx.id)
      → before new.id ≡ none
      → s.marshal tx.metainfo ≡ ok text
      → after ≡ put_row new.id (row_of new (jsonb text)) before
      → Stored s jsonb tx before after (ok (new, new))

wrapped_ok : (text : String) (r : Outcome (Unit {0})) → wrap_error text r ≡ ok tt → r ≡ ok tt
wrapped_ok text (ok u) h = refl
wrapped_ok text (err e) h = cc
wrapped_ok text (panic p) h = cc

wrapped_error :
    (text : String) (r : Outcome (Unit {0})) (e : Error) → wrap_error text r ≡ err e → r ≢ ok tt
wrapped_error text (ok u) e h k = cc
wrapped_error text (err x) e h k = cc
wrapped_error text (panic p) e h k = cc

wrapped_panic :
    (text : String) (r : Outcome (Unit {0})) (p : Fault) → wrap_error text r ≡ panic p → r ≢ ok tt
wrapped_panic text (ok u) p h k = cc
wrapped_panic text (err x) p h k = cc
wrapped_panic text (panic q) p h k = cc

module _ {Db : Type 0} (s : Driver Db) (laws : TableLaws s) (tx : Transaction) where
  -- The step from a table to where a call ended.
  abbrev StoredTo : Table → Outcome (Transaction × Transaction) × Db → Type 0
  StoredTo before x = Stored s laws.jsonb tx before (laws.rows x.1) x.0

  finish_update :
      (existing : Transaction) (d d' : Db) (o : Option Transaction)
      → Found s tx (laws.rows d) existing
      → laws.rows d' ≡ change_row existing.id (updated_row tx) (laws.rows d)
      → Transaction.update existing tx ≡ o
      → StoredTo (laws.rows d) ((lift (update_or_panic o) >>= (λ u. pure (tx, u))) d')
  finish_update existing d d' none f w e = Stored.clashed existing f w e
  finish_update existing d d' (some u) f w e = Stored.changed existing u f w e

  update-Stored :
      (existing : Transaction) (d : Db)
      → Found s tx (laws.rows d) existing
      → StoredTo (laws.rows d) (update_existing s tx existing d)
  unfolding update_existing
  update-Stored existing d f =
      let run = s.exec update_transaction (update_values tx existing.id) d in
      let text : String = "Update of tx data in DB failed" in
      by_first (exec_wrapped s text update_transaction (update_values tx existing.id))
        (λ (x : Unit {0}).
          lift (update_or_panic (Transaction.update existing tx)) >>= (λ u. pure (tx, u)))
        d (StoredTo (laws.rows d))
        (λ x h.
          finish_update existing d run.1 (Transaction.update existing tx) f
            (laws.update_ok tx.hash tx.block_hash (status_string tx.status) tx.confirmations
              existing.id d (wrapped_ok text run.0 h))
            refl)
        (λ e h. Stored.refused e (
          laws.update_failed tx.hash tx.block_hash (status_string tx.status) tx.confirmations
            existing.id d (wrapped_error text run.0 e h)))
        (λ p h. Stored.crashed p (
          laws.update_failed tx.hash tx.block_hash (status_string tx.status) tx.confirmations
            existing.id d (wrapped_panic text run.0 p h)))

  write_row :
      (new : Transaction) (text : String) (d : Db)
      → Absent tx (laws.rows d)
      → new ≡ (record tx { id = new.id })
      → (tx.id ≡ 0) ⊎ (new.id ≡ tx.id)
      → s.marshal tx.metainfo ≡ ok text
      → StoredTo (laws.rows d) (
          (exec_wrapped s "Failed to insert new tx into DB" insert_transaction
                (insert_values new text)
              >>= (λ x. pure (new, new)))
            d)
  write_row new text d a n i m =
      let run = s.exec insert_transaction (insert_values new text) d in
      let label : String = "Failed to insert new tx into DB" in
      by_first (exec_wrapped s label insert_transaction (insert_values new text))
        (λ (x : Unit {0}). pure (new, new)) d (StoredTo (laws.rows d))
        (λ x h.
          let (free, put) = laws.insert_ok (row_of new text) d (wrapped_ok label run.0 h) in
          Stored.added new text a n i free m put)
        (λ e h.
          Stored.refused e (laws.insert_failed (row_of new text) d (wrapped_error label run.0 e h)))
        (λ p h.
          Stored.crashed p (laws.insert_failed (row_of new text) d (wrapped_panic label run.0 p h)))

  insert_row-Stored :
      (new : Transaction) (d : Db)
      → Absent tx (laws.rows d)
      → new ≡ (record tx { id = new.id })
      → (tx.id ≡ 0) ⊎ (new.id ≡ tx.id)
      → StoredTo (laws.rows d) (insert_row s new d)
  insert_row-Stored new d a n i =
      by_first (lift (s.marshal new.metainfo))
        (λ text.
          exec_wrapped s "Failed to insert new tx into DB" insert_transaction
            (insert_values new text)
          >>= (λ (x : Unit {0}). pure (new, new)))
        d (StoredTo (laws.rows d))
        (λ text m.
          let same : new.metainfo ≡ tx.metainfo = ap (λ t. t.metainfo) n in
          write_row new text d a n i (ap (λ j. s.marshal j) (sym same) ∙ m))
        (λ e h. Stored.refused e refl) (λ p h. Stored.crashed p refl)

  abbrev Identified : Transaction → Type 0
  Identified new = (new ≡ (record tx { id = new.id })) × ((tx.id ≡ 0) ⊎ (new.id ≡ tx.id))

  with_id-Identified :
      (d : Db) → Result Identified (with_id s tx d).0 × (laws.rows (with_id s tx d).1 ≡ laws.rows d)
  with_id-Identified d = elim (Bool-cases (tx.id == 0)) [
    | inl e ↦
        let same = laws.new_uuid_rows d in
        let zero_id : tx.id ≡ 0 = ground arith in
        rw e (
          by_first (new_v4 s) (λ i. pure (record tx { id = i })) d
            (λ x. Result Identified x.0 × (laws.rows x.1 ≡ laws.rows d))
            (λ i h. ((refl, inl zero_id), same)) (λ x h. (tt, same)) (λ p h. (tt, same)))
    | inr e ↦ rw e ((refl, inr refl), refl)
  ]

  insert-Stored : (d : Db) → Absent tx (laws.rows d) → StoredTo (laws.rows d) (insert_new s tx d)
  unfolding insert_new
  insert-Stored d a =
      let (identified, same) = with_id-Identified d in
      by_first (with_id s tx) (insert_row s) d (StoredTo (laws.rows d))
        (λ new h.
          let (n, i) = Result-ok Identified (with_id s tx d).0 identified h in
          rw same at (insert_row-Stored new (with_id s tx d).1 (rw same a) n i))
        (λ e h. Stored.refused e same) (λ p h. Stored.crashed p same)

  update_or_insert-Stored :
      (o : Option Transaction) (d : Db)
      → Searched s tx (laws.rows d) o
      → StoredTo (laws.rows d) (update_or_insert s tx o d)
  update_or_insert-Stored none d h = insert-Stored d h
  update_or_insert-Stored (some existing) d h = update-Stored existing d h

  -- StoreTransaction implements its abstract description `Stored`, however it ends. Either it
  -- leaves the table as it was, and fails or panics; or it updates the hash, the block hash, the
  -- confirmations and the status of the row that is sought, and returns what Update makes of the
  -- transaction of this row, or panics where Update does; or, where no row is sought, it adds one
  -- under the identifier of the transaction or a new one, which no row had, with the metainfo as
  -- JSONB gives it back.
  pub store_transaction-Stored :
      (d : Db)
      → Stored s laws.jsonb tx
          (laws.rows d)
          (laws.rows (store_transaction s tx d).1)
          (store_transaction s tx d).0
  unfolding store_transaction
  store_transaction-Stored d =
      let (found, same) = find_existing-Searched s laws tx d in
      by_first (find_existing s tx) (update_or_insert s tx) d (StoredTo (laws.rows d))
        (λ o h.
          let here = Result-ok (Searched s tx (laws.rows d)) (find_existing s tx d).0 found h in
          rw same at (update_or_insert-Stored o (find_existing s tx d).1 (rw same here)))
        (λ e h. Stored.refused e same) (λ p h. Stored.crashed p same)
