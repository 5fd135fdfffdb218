-- ===== src/Wallet/Tests/Tables/Places.antt =====
-- A database with eight places for transactions and a place for each name: how it runs the
-- statements of wallet/postgresstorage.go.
use bitcoin_processing.Base.{
  ℕ, zero, suc, ◌==◌, ltb, ◌&&◌, String, str_eq, Option, none, some, Bool, List, [], ◌∷◌,
  if◌then◌else◌,
}
use bitcoin_processing.Types.Json.{Json}
use bitcoin_processing.Monad
use bitcoin_processing.Monad.{Outcome, ok, err, panic, M}
use bitcoin_processing.Storage.Meta.{Value, uuid, string, int64, uint64, flag}
use bitcoin_processing.Wallet.Postgres.{
  TransactionRow, Driver, select_by_id, select_by_hash_direction_address,
}
use bitcoin_processing.Wallet.Postgres.Tables.{Table, map_text, change_row, put_row, set_columns}

pub record Sheet : Type 0 where
  pub rows : Table
  pub meta : String → Option String
  pub next : ℕ

-- Places are numbered below 8, and a row has the number of its place.
abbrev pub row_at : ℕ → Option TransactionRow → Option TransactionRow
row_at i none = none
row_at i (some row) = if ltb i 8 then some (record row { id = i }) else none

abbrev pub view : Sheet → Table
view d i = row_at i (d.rows i)

abbrev pub found_row : {A : Type 0} → Option A → Outcome A
found_row none = err Monad.no_rows
found_row (some row) = ok row

abbrev pub matches : String → String → String → TransactionRow → Bool
matches h dir a row = str_eq row.hash h && (str_eq row.direction dir && str_eq row.address a)

abbrev pub matching :
    (TransactionRow → Bool)
    → Option TransactionRow
    → Outcome TransactionRow
    → Outcome TransactionRow
matching p none rest = rest
matching p (some row) rest = if p row then ok row else rest

-- The first row below a place that passes a test.
abbrev pub search_below : ℕ → (TransactionRow → Bool) → Table → Outcome TransactionRow
search_below zero p rows = err Monad.no_rows
search_below (suc n) p rows = matching p (rows n) (search_below n p rows)

abbrev pub select : String → List Value → Sheet → Outcome TransactionRow
select query (uuid i ∷ []) d =
    if str_eq query select_by_id then found_row (view d i) else err (Monad.external "syntax")
select query (string h ∷ string dir ∷ string a ∷ []) d =
    if str_eq query select_by_hash_direction_address
    then search_below 8 (matches h dir a) (view d)
    else err (Monad.external "syntax")
select query _ d = err (Monad.external "syntax")

abbrev pub put_in : Option TransactionRow → TransactionRow → Sheet → Outcome (Unit {0}) × Sheet
put_in none row d =
    if ltb row.id 8
    then (ok tt, record d { rows = put_row row.id row d.rows })
    else (err (Monad.external "full"), d)
put_in (some other) row d = (err (Monad.external "duplicate key"), d)

abbrev pub insert_row : TransactionRow → Sheet → Outcome (Unit {0}) × Sheet
insert_row row d = put_in (view d row.id) row d

abbrev pub text_of : Value → Option String
text_of (string text) = some text
text_of _ = none

-- The column for metainfo puts a space behind a null.
abbrev pub reformat : String → String
reformat text = if str_eq text "null" then "null " else text

abbrev pub execute : List Value → Sheet → Outcome (Unit {0}) × Sheet
execute (string k ∷ string v ∷ []) d =
    (ok tt, record d { meta = λ j. if str_eq k j then some v else d.meta j })
execute (string h ∷ string b ∷ int64 c ∷ string st ∷ uuid i ∷ []) d =
    (ok tt, record d { rows = change_row i (set_columns h b c st) d.rows })
execute
      (uuid i
        ∷ string h
        ∷ string b
        ∷ int64 c
        ∷ string a
        ∷ string dir
        ∷ string st
        ∷ uint64 m
        ∷ text
        ∷ uint64 f
        ∷ string ft
        ∷ flag cold
        ∷ int64 r
        ∷ [])
      d =
    insert_row
      (record {
        id = i;
        hash = h;
        block_hash = b;
        confirmations = c;
        address = a;
        direction = dir;
        status = st;
        amount = m;
        metainfo_json = map_text reformat (text_of text);
        fee = f;
        fee_type = ft;
        cold_storage = cold;
        reported_confirmations = r;
      })
      d
execute _ d = (err (Monad.external "syntax"), d)

-- Texts that stand for JSON values and numbers.
abbrev pub driver : Driver Sheet
driver = record {
  executor = record {
    exec = λ query args d. execute args d;
    query_string = λ query args d.
        (elim args [ string k ∷ [] ↦ found_row (d.meta k) | _ ↦ err (Monad.external "syntax") ], d);
  };
  query_transaction = λ query args d. (select query args d, d);
  query_transactions = λ query args d. (ok (record { scans = []; rows_err = none }), d);
  marshal = λ j. elim j [ Json.null ↦ ok "null" | _ ↦ err (Monad.external "unsupported") ];
  unmarshal = λ text.
      if str_eq text "null"
      then ok Json.null
      else if str_eq text "null "
      then ok Json.null
      else err (Monad.external "unsupported");
  marshal_operation = λ tx. ok "operation";
  format_uint = λ n. if n == 7 then "7" else "0";
  parse_uint = λ text. if str_eq text "7" then ok 7 else ok 0;
  new_uuid = λ d. (ok d.next, record d { next = suc d.next });
}
