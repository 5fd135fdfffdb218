-- ===== src/Wallet/Tests/Tables.antt =====
-- The database of Places meets the laws of the statements of wallet/postgresstorage.go; and a
-- transaction to store in it.
pub mod Places
use bitcoin_processing.Base.{
  sym, ◌≡◌, ◌≢◌, ◌⊎◌, ◌↔◌, inl, inr, refl, ap, ◌∙◌, ℕ, zero, suc, ◌==◌, ltb, ◌<◌, ◌&&◌, String,
  str_eq, str_eq_iff, Option, none, some, Bool, true, false, Bool-cases, arith, List, [], ◌∷◌,
  if◌then◌else◌,
}
use bitcoin_processing.Base.Int.{ℤ, pos, negsuc}
use bitcoin_processing.Bitcoin.Fee.{FeeType}
use bitcoin_processing.Types.Json.{Json}
use bitcoin_processing.Types.Status.{TransactionStatus}
use bitcoin_processing.Types.Direction.{TransactionDirection, direction_string}
use bitcoin_processing.Types.Transaction.{Transaction}
use bitcoin_processing.Monad
use bitcoin_processing.Monad.{Outcome, ok, err, panic, M}
use bitcoin_processing.Storage.Meta.{Value, uuid, string, int64, uint64, flag, MetaLaws}
use bitcoin_processing.Wallet.Postgres.{
  TransactionRow, Driver, select_by_id, select_by_hash_direction_address,
}
use mathlib.Core.Path.{subst}
use bitcoin_processing.Wallet.Postgres.Tables.{
  Table, TableLaws, map_text, as_stored, Matches, change_row, put_row, map_row, set_columns,
  row_values, text_or_null,
}
use bitcoin_processing.Wallet.Tests.Tables.Places.{
  reformat, row_at, view, found_row, matches, matching, search_below, select, put_in, insert_row,
  text_of, execute, driver, Sheet,
}

matching_found :
    (p : TransactionRow → Bool) (o : Option TransactionRow) (rest : Outcome TransactionRow)
    (row : TransactionRow)
    → matching p o rest ≡ ok row
    → ((o ≡ some row) × (p row ≡ true)) ⊎ (rest ≡ ok row)
matching_found p none rest row h = inr h
matching_found p (some r) rest row h = elim (Bool-cases (p r)) [
  | inl e ↦
      let got : ok r ≡ ok row = rw e at h in
      let same : r ≡ row = cc in inl (ap some same, rw same at e)
  | inr e ↦ inr (rw e at h)
]

matching_missing :
    (p : TransactionRow → Bool) (o : Option TransactionRow) (rest : Outcome TransactionRow)
    → matching p o rest ≡ err Monad.no_rows
    → (rest ≡ err Monad.no_rows) × ((row : TransactionRow) → o ≡ some row → p row ≡ false)
matching_missing p none rest h = (h, λ row e. cc)
matching_missing p (some r) rest h = elim (Bool-cases (p r)) [
  | inl e ↦ let got : ok r ≡ err Monad.no_rows = rw e at h in cc
  | inr e ↦ (rw e at h, λ row q. let same : r ≡ row = cc in rw same at e)
]

pub at_place :
    (i : ℕ) (o : Option TransactionRow) (row : TransactionRow)
    → row_at i o ≡ some row
    → (row.id ≡ i) × (i < 8)
at_place i none row h = cc
at_place i (some r) row h = elim (Bool-cases (ltb i 8)) [
  | inl e ↦ let got : some (record r { id = i }) ≡ some row = rw e at h in (cc, ground arith)
  | inr e ↦ let got : none ≡ some row = rw e at h in cc
]

-- What the search finds is in the table and passes the test.
pub search_found :
    (n : ℕ) (p : TransactionRow → Bool) (d : Sheet) (row : TransactionRow)
    → search_below n p (view d) ≡ ok row
    → (p row ≡ true) × (view d row.id ≡ some row)
search_found zero p d row h = cc
search_found (suc n) p d row h =
    elim (matching_found p (view d n) (search_below n p (view d)) row h) [
      | inl (o, e) ↦ (e, let same = (at_place n (d.rows n) row o).0 in ap (λ i. view d i) same ∙ o)
      | inr r ↦ search_found n p d row r
    ]

pub search_missing :
    (n : ℕ) (p : TransactionRow → Bool) (rows : Table)
    → search_below n p rows ≡ err Monad.no_rows
    → (i : ℕ) (row : TransactionRow) → i < n
    → rows i ≡ some row
    → p row ≡ false
search_missing zero p rows h i row k r = absurd (omega arith)
search_missing (suc n) p rows h i row k r =
    let (rest, here) = matching_missing p (rows n) (search_below n p rows) h in
    elim (Bool-cases (i == n)) [
      | inl e ↦ let same : i ≡ n = ground arith in here row (rw same at r)
      | inr e ↦ search_missing n p rows rest i row (ground arith) r
    ]

updated_at :
    (h b st : String) (c : ℤ) (j : ℕ) (o : Option TransactionRow)
    → row_at j (map_row (set_columns h b c st) o) ≡ map_row (set_columns h b c st) (row_at j o)
updated_at h b st c j none = refl
updated_at h b st c j (some row) = elim (Bool-cases (ltb j 8)) [
  | inl e ↦ rw e refl
  | inr e ↦ rw e refl
]

pub view_change :
    (h b st : String) (c : ℤ) (i : ℕ) (d : Sheet) (j : ℕ)
    → row_at j (change_row i (set_columns h b c st) d.rows j)
      ≡ change_row i (set_columns h b c st) (view d) j
view_change h b st c i d j = elim (Bool-cases (j == i)) [
  | inl e ↦ rw e (updated_at h b st c j (d.rows j))
  | inr e ↦ rw e refl
]

put_in_ok :
    (o : Option TransactionRow) (row : TransactionRow) (d : Sheet)
    → (put_in o row d).0 ≡ ok tt
    → (o ≡ none)
      × (row.id < 8)
      × ((put_in o row d).1 ≡ (record d { rows = put_row row.id row d.rows }))
put_in_ok none row d h = elim (Bool-cases (ltb row.id 8)) [
  | inl e ↦ (refl, ground arith, rw e refl)
  | inr e ↦ let failed : err (Monad.external "full") ≡ ok tt = rw e at h in cc
]
put_in_ok (some r) row d h = cc

pub put_in_failed :
    (o : Option TransactionRow) (row : TransactionRow) (d : Sheet)
    → (put_in o row d).0 ≢ ok tt
    → (put_in o row d).1 ≡ d
put_in_failed none row d h = elim (Bool-cases (ltb row.id 8)) [
  | inl e ↦ absurd (h (rw e refl))
  | inr e ↦ rw e refl
]
put_in_failed (some r) row d h = refl

view_put :
    (row : TransactionRow) (d : Sheet) (j : ℕ)
    → row.id < 8
    → row_at j (put_row row.id row d.rows j) ≡ put_row row.id row (view d) j
view_put row d j h = elim (Bool-cases (j == row.id)) [
  | inl e ↦
      let same : j ≡ row.id = ground arith in
      let small : ltb j 8 ≡ true = ground arith in
      let numbered : ℕ → Option TransactionRow = λ n. some (record row { id = n }) in
      rw (e, small) (ap numbered same)
  | inr e ↦ rw e refl
]

pub insert_row_ok :
    (row : TransactionRow) (d : Sheet)
    → (insert_row row d).0 ≡ ok tt
    → (view d row.id ≡ none) × (view (insert_row row d).1 ≡ put_row row.id row (view d))
insert_row_ok row d h =
    let (free, small, after) = put_in_ok (view d row.id) row d h in
    (free, rw after (λ i j. view_put row d j small i))

pub found_some : {A : Type 0} (o : Option A) (row : A) → found_row o ≡ ok row → o ≡ some row
found_some none row h = cc
found_some (some r) row h = let same : r ≡ row = cc in ap some same

pub found_none : {A : Type 0} (o : Option A) → found_row o ≡ err Monad.no_rows → o ≡ none
found_none none h = refl
found_none (some r) h = cc

both_true : (a b : Bool) → (a && b) ≡ true → (a ≡ true) × (b ≡ true)
both_true true b h = (refl, h)
both_true false b h = cc

pub matches-Matches :
    (tx : Transaction) (row : TransactionRow)
    → (matches tx.hash (direction_string tx.direction) tx.address row ≡ true) ↔ Matches tx row
matches-Matches tx row =
    let i = str_eq_iff row.hash tx.hash in
    let j = str_eq_iff row.direction (direction_string tx.direction) in
    let k = str_eq_iff row.address tx.address in
    (
      λ h.
          let (a, rest) =
            both_true (str_eq row.hash tx.hash)
              (str_eq row.direction (direction_string tx.direction)
                && str_eq row.address tx.address)
              h in
          let (b, c) =
            both_true (str_eq row.direction (direction_string tx.direction))
              (str_eq row.address tx.address) rest in
          (i.0 a, j.0 b, k.0 c),
      λ h. rw (i.1 h.0, j.1 h.1, k.1 h.2) refl,
    )

pub no_json_error : (text : String) → driver.unmarshal text ≢ err Monad.no_rows
no_json_error text h = ground arith

pub reformatted :
    (j : Json) (text : String)
    → driver.marshal j ≡ ok text
    → driver.unmarshal (reformat text) ≡ driver.unmarshal text
reformatted Json.null text h = let same : "null" ≡ text = cc in rw (← same) refl
reformatted (Json.boolean b) text h = cc
reformatted (Json.number n) text h = cc
reformatted (Json.text x) text h = cc
reformatted (Json.array xs) text h = cc
reformatted (Json.object xs) text h = cc

pub json_back :
    (text : String) → driver.marshal Json.null ≡ ok text → driver.unmarshal text ≡ ok Json.null
json_back text h = let same : "null" ≡ text = cc in rw (← same) refl

pub hash_missing :
    (tx : Transaction) (d : Sheet)
    → (driver.query_transaction select_by_hash_direction_address
        (string tx.hash ∷ string (direction_string tx.direction) ∷ string tx.address ∷ [])
        d).0
      ≡ err Monad.no_rows
    → (i : ℕ) (row : TransactionRow) → view d i ≡ some row
    → ¬ Matches tx row
hash_missing tx d h i row r m =
    let e = (matches-Matches tx row).1 m in
    let e' =
      search_missing 8 (matches tx.hash (direction_string tx.direction) tx.address) (view d) h i row
        (at_place i (d.rows i) row r).1 r in
    cc

text_back : (o : Option String) → text_of (text_or_null o) ≡ o
text_back none = refl
text_back (some text) = refl

executed :
    (row : TransactionRow) (d : Sheet)
    → execute (row_values row) d ≡ insert_row (as_stored reformat row) d
executed row d =
    let with_text : Option String → TransactionRow =
      λ o. record row { metainfo_json = map_text reformat o } in
    ap (λ o. insert_row (with_text o) d) (text_back row.metainfo_json)

pub inserted :
    (row : TransactionRow) (d : Sheet)
    → (execute (row_values row) d).0 ≡ ok tt
    → (view d row.id ≡ none)
      × (view (execute (row_values row) d).1 ≡ put_row row.id (as_stored reformat row) (view d))
inserted row d =
    subst
      (λ (x : Outcome (Unit {0}) × Sheet).
        x.0 ≡ ok tt
        → (view d row.id ≡ none) × (view x.1 ≡ put_row row.id (as_stored reformat row) (view d)))
      (sym (executed row d)) (insert_row_ok (as_stored reformat row) d)

pub not_inserted :
    (row : TransactionRow) (d : Sheet)
    → (execute (row_values row) d).0 ≢ ok tt
    → view (execute (row_values row) d).1 ≡ view d
not_inserted row d =
    subst (λ (x : Outcome (Unit {0}) × Sheet). x.0 ≢ ok tt → view x.1 ≡ view d)
      (sym (executed row d))
      (λ h. ap (λ x. view x) (put_in_failed (view d row.id) (as_stored reformat row) d h))

abbrev pub table_laws : TableLaws driver
table_laws = record {
  rows = view;
  jsonb = reformat;
  jsonb_read = reformatted;
  id_rows = λ i d. refl;
  id_found = λ i d row h.
      let there = found_some (view d i) row h in ((at_place i (d.rows i) row there).0, there);
  id_missing = λ i d h. found_none (view d i) h;
  hash_rows = λ tx d. refl;
  hash_found = λ tx d row h.
      let (e, there) =
        search_found 8 (matches tx.hash (direction_string tx.direction) tx.address) d row h in
      ((matches-Matches tx row).0 e, there);
  hash_missing = hash_missing;
  update_ok = λ h b st c i d e. λ k j. view_change h b st c i d j k;
  update_failed = λ h b st c i d e. absurd (e refl);
  insert_ok = inserted;
  insert_failed = not_inserted;
  new_uuid_rows = λ d. refl;
  unmarshal_error = no_json_error;
}

abbrev pub meta_laws : MetaLaws driver.executor
meta_laws = record {
  metadata = λ d. d.meta;
  select_found = λ k d {v = v} h. found_some (d.meta k) v h;
  select_missing = λ k d h. found_none (d.meta k) h;
  upsert_ok = λ k v d h j. refl;
}

abbrev pub payment : Transaction
payment = record {
  id = 0;
  hash = "txhash";
  block_hash = "";
  confirmations = pos 0;
  address = "address";
  direction = TransactionDirection.incoming;
  status = TransactionStatus.new;
  amount = 500;
  metainfo = Json.null;
  fee = 0;
  fee_type = FeeType.invalid;
  cold_storage = false;
  fresh = true;
  reported_confirmations = negsuc 0;
}

abbrev pub sheet : Sheet
sheet = record { rows = λ i. none; meta = λ k. none; next = 3 }

abbrev pub stored_payment : Transaction
stored_payment = record payment { id = 3 }
