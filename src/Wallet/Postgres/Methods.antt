-- ===== src/Wallet/Postgres/Methods.antt =====
-- The other methods of wallet/postgresstorage.go, and the interface that they fill.
use Prim.Native.String.{◌++◌ as and_text}
use bitcoin_processing.Base.{
  ℕ, suc, String, str_eq, Bool, Option, none, some, List, [], ◌∷◌, ◌++◌, if◌then◌else◌,
}
use bitcoin_processing.Base.Int.{ℤ}
use bitcoin_processing.Types.Status
use bitcoin_processing.Types.Status.{status_string}
use bitcoin_processing.Types.Transaction.{Transaction}
use bitcoin_processing.Events.Types.{Account}
use bitcoin_processing.Monad
use bitcoin_processing.Monad.{Outcome, ok, err, panic, M, pure, lift, ◌>>=◌, ◌>>◌}
use bitcoin_processing.Storage.Meta.{Value, uuid, string, bytes, int64, get_meta, set_meta}
use bitcoin_processing.Wallet.Interfaces.{Storage}
use bitcoin_processing.Wallet.Postgres.{
  TransactionRow, Driver, then_do, transaction_from_database_row, get_transaction_by_id,
  select_transactions, store_transaction,
}

abbrev pub select_broadcasted : String
select_broadcasted = select_transactions " WHERE confirmations < $1 and hash != ''"

abbrev pub select_pending : String
select_pending = select_transactions " WHERE status = $1 OR status = $2"

abbrev pub update_reported : String
update_reported = "UPDATE transactions SET reported_confirmations = $1 WHERE id = $2"

abbrev pub select_account : String
select_account = "SELECT metainfo FROM accounts WHERE address = $1"

abbrev pub insert_account : String
insert_account = "INSERT INTO accounts (address, metainfo) VALUES ($1, $2)"

-- The WHERE clause that GetTransactionsWithFilter puts together: its conditions (numbered by
-- `argc`, 1 or 2) joined by AND, and the arguments in the same order.
abbrev pub condition : String → ℕ → String
condition column (suc (suc argc)) = and_text column " = $2"
condition column _ = and_text column " = $1"

abbrev pub add_filter :
    String → String → List String × List Value × ℕ → List String × List Value × ℕ
add_filter column filter (clause, args, argc) =
    if str_eq filter ""
    then (clause, args, argc)
    else (clause ++ condition column (suc argc) ∷ [], args ++ string filter ∷ [], suc argc)

abbrev pub join_and : List String → String
join_and [] = ""
join_and (c ∷ []) = c
join_and (c ∷ d ∷ cs) = and_text c (and_text " AND " (join_and (d ∷ cs)))

abbrev pub where_clause : List String → String
where_clause [] = ""
where_clause (c ∷ cs) = and_text " WHERE " (join_and (c ∷ cs))

unfoldable pub filter_query : String → String → String × List Value
filter_query direction_filter status_filter =
    let (clause, args, argc) =
      add_filter "status" status_filter (add_filter "direction" direction_filter ([], [], 0)) in
    (select_transactions (where_clause clause), args)

-- `string` of an empty text means that no address was generated.
abbrev pub generated : String → Outcome String
generated address = if str_eq address "" then err Monad.hot_wallet_not_generated else ok address

-- GetAccountByAddress: no row is not an error.
abbrev pub account_or_none : Outcome String → Outcome (Option String)
account_or_none (ok text) = ok (some text)
account_or_none (err Monad.no_rows) = ok none
account_or_none (err e) = err e
account_or_none (panic p) = panic p

module _ {Db : Type 0} (s : Driver Db) where
  -- The loop over the rows; `rows.Err()` is asked after the last.
  unfoldable pub collect :
      List (Outcome TransactionRow) → Option Monad.Error → Outcome (List Transaction)
  collect [] none = ok []
  collect [] (some e) = err e
  collect (r ∷ rs) e =
      then_do (transaction_from_database_row s r) λ tx. then_do (collect rs e) λ txs. ok (tx ∷ txs)

  abbrev pub query_all : String → List Value → M Db (List Transaction)
  query_all query args =
      s.query_transactions query args >>= λ rows. lift (collect rows.scans rows.rows_err)

  abbrev pub get_broadcasted_transactions_with_less_confirmations : ℤ → M Db (List Transaction)
  get_broadcasted_transactions_with_less_confirmations n =
      query_all select_broadcasted (int64 n ∷ [])

  abbrev pub get_pending_transactions : M Db (List Transaction)
  get_pending_transactions = query_all select_pending (
      string (status_string Status.pending)
      ∷ string (status_string Status.pending_cold_storage)
      ∷ [])

  unfoldable pub get_transactions_with_filter : String → String → M Db (List Transaction)
  get_transactions_with_filter direction_filter status_filter =
      let (query, args) = filter_query direction_filter status_filter in query_all query args

  abbrev pub update_reported_confirmations : Transaction → ℤ → M Db (Unit {0})
  update_reported_confirmations tx n = s.exec update_reported (int64 n ∷ uuid tx.id ∷ [])

  abbrev pub account_of_text : String → Option String → Outcome (Option Account)
  account_of_text address none = ok none
  account_of_text address (some text) =
      then_do (s.unmarshal text)
        λ metainfo. ok (some (record { address = address; metainfo = metainfo }))

  abbrev pub get_account_by_address : String → M Db (Option Account)
  get_account_by_address address d =
      let (r, d') = s.query_string select_account (string address ∷ []) d in
      (then_do (account_or_none r) (account_of_text address), d')

  abbrev pub store_account : Account → M Db (Unit {0})
  store_account account = do
    metainfo ← lift (s.marshal account.metainfo)
    s.exec insert_account (string account.address ∷ bytes metainfo ∷ [])

  abbrev pub get_last_seen_block_hash : M Db String
  get_last_seen_block_hash = get_meta s.executor "last_seen_block_hash" ""

  abbrev pub set_last_seen_block_hash : String → M Db (Unit {0})
  set_last_seen_block_hash hash = set_meta s.executor "last_seen_block_hash" hash

  unfoldable pub get_hot_wallet_address : M Db String
  get_hot_wallet_address =
      get_meta s.executor "hot_wallet_address" "" >>= λ address. lift (generated address)

  unfoldable pub set_hot_wallet_address : String → M Db (Unit {0})
  set_hot_wallet_address address = set_meta s.executor "hot_wallet_address" address

  unfoldable pub get_money_required_from_cold_storage : M Db ℕ
  get_money_required_from_cold_storage =
      get_meta s.executor "money_required_from_cold_storage" "0" >>= λ text.
      lift (s.parse_uint text)

  unfoldable pub set_money_required_from_cold_storage : ℕ → M Db (Unit {0})
  set_money_required_from_cold_storage amount =
      set_meta s.executor "money_required_from_cold_storage" (s.format_uint amount)

  abbrev pub lock_wallet : Transaction → M Db (Unit {0})
  lock_wallet operation = do
    text ← lift (s.marshal_operation operation)
    set_meta s.executor "wallet_operation" text

  abbrev pub clear_wallet : M Db (Unit {0})
  clear_wallet = set_meta s.executor "wallet_operation" ""

  abbrev pub check_wallet_lock : M Db (Bool × String)
  check_wallet_lock = get_meta s.executor "wallet_operation" "" >>= λ operation.
      pure (str_eq operation "", operation)

  unfoldable pub postgres_storage : Storage Db
  postgres_storage = record {
    get_last_seen_block_hash = get_last_seen_block_hash;
    set_last_seen_block_hash = set_last_seen_block_hash;
    store_transaction = store_transaction s;
    get_transaction_by_id = get_transaction_by_id s;
    get_broadcasted_transactions_with_less_confirmations =
        get_broadcasted_transactions_with_less_confirmations;
    get_pending_transactions = get_pending_transactions;
    update_reported_confirmations = update_reported_confirmations;
    get_transactions_with_filter = get_transactions_with_filter;
    get_account_by_address = get_account_by_address;
    store_account = store_account;
    get_hot_wallet_address = get_hot_wallet_address;
    set_hot_wallet_address = set_hot_wallet_address;
    get_money_required_from_cold_storage = get_money_required_from_cold_storage;
    set_money_required_from_cold_storage = set_money_required_from_cold_storage;
    lock_wallet = lock_wallet;
    clear_wallet = clear_wallet;
    check_wallet_lock = check_wallet_lock;
  }
