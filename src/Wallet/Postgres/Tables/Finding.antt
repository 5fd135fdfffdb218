-- ===== src/Wallet/Postgres/Tables/Finding.antt =====
-- The search of StoreTransaction for the row that it updates.
use bitcoin_processing.Base.{
  ◌≡◌, ◌≢◌, ◌⊎◌, inl, inr, refl, ℕ, ◌==◌, String, str_eq, str_eq_iff, Option, none, some,
  Bool-cases, arith, [], ◌∷◌,
}
use bitcoin_processing.Types.Json.{Json}
use bitcoin_processing.Types.Status.{TransactionStatus, transaction_status_from_string}
use bitcoin_processing.Types.Direction.{
  TransactionDirection, transaction_direction_from_string, direction_string,
}
use bitcoin_processing.Types.Transaction.{Transaction}
use bitcoin_processing.Monad
use bitcoin_processing.Monad.{Outcome, ok, err, panic, M, pure, ◌>>=◌}
use bitcoin_processing.Monad.Inversion.{Result, Result-ok, by_first}
use bitcoin_processing.Storage.Meta.{uuid, string}
use bitcoin_processing.Wallet.Postgres.{
  TransactionRow, Driver, checked, unmarshal_metainfo, transaction_from_database_row, look_up,
  found_or_none, get_transaction_by_id, get_transaction_by_hash_direction_and_address, find_by_id,
  find_by_hash, find_existing, select_by_id, select_by_hash_direction_address,
}
use bitcoin_processing.Wallet.Postgres.Reads.{parsed}
use bitcoin_processing.Wallet.Postgres.Tables.{Table, TableLaws, Matches}

parsed_missing :
    (row : TransactionRow) (d : Outcome TransactionDirection) (t : Outcome TransactionStatus)
    (m : Outcome Json)
    → parsed row d t m ≡ err Monad.no_rows
    → (d ≡ err Monad.no_rows) ⊎ (t ≡ err Monad.no_rows) ⊎ (m ≡ err Monad.no_rows)
parsed_missing row (ok d) (ok t) (ok m) h = cc
parsed_missing row (ok d) (ok t) (err e) h = inr (inr cc)
parsed_missing row (ok d) (ok t) (panic p) h = cc
parsed_missing row (ok d) (err e) m h = inr (inl cc)
parsed_missing row (ok d) (panic p) m h = cc
parsed_missing row (err e) t m h = inl cc
parsed_missing row (panic p) t m h = cc

checked_error : {A : Type 0} (r : A × Option String) → checked r ≢ err Monad.no_rows
checked_error (a, none) h = cc
checked_error (a, some s) h = cc

found_or_none-Result :
    (r : Outcome Transaction) (P : Option Transaction → Type 0)
    → ((e : Transaction) → r ≡ ok e → P (some e))
    → (r ≡ err Monad.no_rows → P none)
    → Result P (found_or_none r)
found_or_none-Result (ok e) P f g = f e refl
found_or_none-Result (err Monad.no_rows) P f g = g refl
found_or_none-Result (err e) P f g = tt
found_or_none-Result (panic p) P f g = tt

-- How a row is the one that is looked for: by its identifier, or else by its hash.
abbrev pub Sought : Transaction → Table → TransactionRow → Type 0
Sought tx rows row =
    ((tx.id ≢ 0) × (row.id ≡ tx.id))
    ⊎ (((tx.id ≡ 0) ⊎ (rows tx.id ≡ none)) × (tx.hash ≢ "") × Matches tx row)

abbrev pub NoMatch : Transaction → Table → Type 0
NoMatch tx rows = (i : ℕ) (row : TransactionRow) → rows i ≡ some row → ¬ Matches tx row

-- A transaction that the table has no row for.
abbrev pub Absent : Transaction → Table → Type 0
Absent tx rows = ((tx.id ≡ 0) ⊎ (rows tx.id ≡ none)) × ((tx.hash ≡ "") ⊎ NoMatch tx rows)

module _ {Db : Type 0} (s : Driver Db) where
  -- The transaction that a sought row of the table reads as.
  abbrev pub Found : Transaction → Table → Transaction → Type 0
  Found tx rows existing =
      (row : TransactionRow) × (rows row.id ≡ some row)
      × (transaction_from_database_row s (ok row) ≡ ok existing)
      × Sought tx rows row

  abbrev pub Searched : Transaction → Table → Option Transaction → Type 0
  Searched tx rows none = Absent tx rows
  Searched tx rows (some existing) = Found tx rows existing

module _ {Db : Type 0} (s : Driver Db) (laws : TableLaws s) where
  metainfo_error : (m : Option String) → unmarshal_metainfo s m ≢ err Monad.no_rows
  metainfo_error none h = cc
  metainfo_error (some text) h = laws.unmarshal_error text h

  row_missing :
      (r : Outcome TransactionRow)
      → transaction_from_database_row s r ≡ err Monad.no_rows
      → r ≡ err Monad.no_rows
  unfolding transaction_from_database_row
  row_missing (ok row) h =
      elim (parsed_missing row (checked (transaction_direction_from_string row.direction))
        (checked (transaction_status_from_string row.status))
        (unmarshal_metainfo s row.metainfo_json) h) [
          | inl e ↦ absurd (checked_error (transaction_direction_from_string row.direction) e)
          | inr (inl e) ↦ absurd (checked_error (transaction_status_from_string row.status) e)
          | inr (inr e) ↦ absurd (metainfo_error row.metainfo_json e)
        ]
  row_missing (err e) h = cc
  row_missing (panic p) h = cc

  pub row_found :
      (r : Outcome TransactionRow) (e : Transaction)
      → transaction_from_database_row s r ≡ ok e
      → (row : TransactionRow) × (r ≡ ok row) × (transaction_from_database_row s (ok row) ≡ ok e)
  row_found (ok row) e h = (row, refl, h)
  row_found (err x) e h = unfold transaction_from_database_row in cc
  row_found (panic p) e h = unfold transaction_from_database_row in cc

  -- The search by identifier.
  abbrev ById : Transaction → Table → Option Transaction → Type 0
  ById tx rows none = (tx.id ≡ 0) ⊎ (rows tx.id ≡ none)
  ById tx rows (some existing) = Found s tx rows existing

  by_id :
      (tx : Transaction) (d : Db)
      → tx.id ≢ 0
      → Result (ById tx (laws.rows d)) (look_up s (get_transaction_by_id s tx.id) d).0
  by_id tx d h =
      let r = (s.query_transaction select_by_id (uuid tx.id ∷ []) d).0 in
      found_or_none-Result (transaction_from_database_row s r) (ById tx (laws.rows d))
        (λ e found.
          let (row, q, reads) = row_found r e found in
          let (same, stored) = laws.id_found tx.id d row q in
          (row, rw same stored, reads, inl (h, same)))
        (λ missing. inr (laws.id_missing tx.id d (row_missing r missing)))

  by_hash :
      (tx : Transaction) (d : Db)
      → (tx.id ≡ 0) ⊎ (laws.rows d tx.id ≡ none)
      → tx.hash ≢ ""
      → Result
          (Searched s tx (laws.rows d))
          (look_up s (get_transaction_by_hash_direction_and_address s tx) d).0
  by_hash tx d k h =
      let args = string tx.hash ∷ string (direction_string tx.direction) ∷ string tx.address ∷ [] in
      let r = (s.query_transaction select_by_hash_direction_address args d).0 in
      found_or_none-Result (transaction_from_database_row s r) (Searched s tx (laws.rows d))
        (λ e found.
          let (row, q, reads) = row_found r e found in
          let (same, stored) = laws.hash_found tx d row q in (row, stored, reads, inr (k, h, same)))
        (λ missing. (k, inr (laws.hash_missing tx d (row_missing r missing))))

  find_by_hash-Searched :
      (tx : Transaction) (o : Option Transaction) (d : Db)
      → ById tx (laws.rows d) o
      → Result (Searched s tx (laws.rows d)) (find_by_hash s tx o d).0
        × (laws.rows (find_by_hash s tx o d).1 ≡ laws.rows d)
  find_by_hash-Searched tx (some e) d h = (h, refl)
  find_by_hash-Searched tx none d h = elim (Bool-cases (str_eq tx.hash "")) [
    | inl e ↦ rw e ((h, inl ((str_eq_iff tx.hash "").0 e)), refl)
    | inr e ↦
        rw e
          (by_hash tx d h (λ q. let same = (str_eq_iff tx.hash "").1 q in cc), laws.hash_rows tx d)
  ]

  find_by_id-ById :
      (tx : Transaction) (d : Db)
      → Result (ById tx (laws.rows d)) (find_by_id s tx d).0
        × (laws.rows (find_by_id s tx d).1 ≡ laws.rows d)
  find_by_id-ById tx d = elim (Bool-cases (tx.id == 0)) [
    | inl e ↦ rw e (inl (ground arith), refl)
    | inr e ↦ rw e (by_id tx d (λ q. ground arith), laws.id_rows tx.id d)
  ]

  -- StoreTransaction looks for a row by the identifier, then by hash, direction and address. Where
  -- the search succeeds it finds a row of the table that is the one sought, or there is none; the
  -- table stays as it was.
  pub find_existing-Searched :
      (tx : Transaction) (d : Db)
      → Result (Searched s tx (laws.rows d)) (find_existing s tx d).0
        × (laws.rows (find_existing s tx d).1 ≡ laws.rows d)
  unfolding find_existing
  find_existing-Searched tx d =
      let (first, same) = find_by_id-ById tx d in
      let R = laws.rows d in
      by_first (find_by_id s tx) (find_by_hash s tx) d
        (λ x. Result (Searched s tx R) x.0 × (laws.rows x.1 ≡ R))
        (λ o e.
          let rest =
            find_by_hash-Searched tx o (find_by_id s tx d).1
              (rw same (Result-ok (ById tx R) (find_by_id s tx d).0 first e)) in
          rw same at rest)
        (λ e q. (tt, same)) (λ x q. (tt, same))
