-- ===== src/Wallet/Interfaces.antt =====
-- What the wallet is built on (wallet/storage.go, events/types.go, bitcoin/nodeapi), its settings,
-- and its own state (wallet/wallet.go). Storage and events share the database `Db`; `Node` is the
-- state of the Bitcoin node. Transactions are handed over by value, as PostgresWalletStorage does:
-- a caller changes a stored transaction only through the storage's methods.
use bitcoin_processing.Base.{ℕ, String, Bool, List, Option, if◌then◌else◌, ltb, suc}
use bitcoin_processing.Base.Int.{ℤ}
use bitcoin_processing.Types.Transaction.{Transaction, ListTransactionsResult, GetTransactionResult}
use bitcoin_processing.Events.Types.{EventType, Payload, Account}
use bitcoin_processing.Monad.{M, ok, ◌>>=◌}
use bitcoin_processing.Storage.{Sql, make_transact_if_available}

-- `store_transaction tx` returns its argument as the call leaves it (a new one gets an id), and
-- the stored transaction. `update_reported_confirmations` also sets the number in its argument when
-- it succeeds, which `report` in Wallet/Notify does for it.
pub record Storage (Db : Type 0) : Type 0 where
  pub get_last_seen_block_hash : M Db String
  pub set_last_seen_block_hash : String → M Db (Unit {0})
  pub store_transaction : Transaction → M Db (Transaction × Transaction)
  pub get_transaction_by_id : ℕ → M Db Transaction
  pub get_broadcasted_transactions_with_less_confirmations : ℤ → M Db (List Transaction)
  pub get_pending_transactions : M Db (List Transaction)
  pub update_reported_confirmations : Transaction → ℤ → M Db (Unit {0})
  pub get_transactions_with_filter : String → String → M Db (List Transaction)
  pub get_account_by_address : String → M Db (Option Account)
  pub store_account : Account → M Db (Unit {0})
  pub get_hot_wallet_address : M Db String
  pub set_hot_wallet_address : String → M Db (Unit {0})
  pub get_money_required_from_cold_storage : M Db ℕ
  pub set_money_required_from_cold_storage : ℕ → M Db (Unit {0})
  pub lock_wallet : Transaction → M Db (Unit {0})
  pub clear_wallet : M Db (Unit {0})
  pub check_wallet_lock : M Db (Bool × String)

pub record NodeApi (Node : Type 0) : Type 0 where
  pub create_new_address : M Node String
  pub list_transactions_since_block : String → M Node (List ListTransactionsResult × String)
  pub get_transaction : String → M Node GetTransactionResult
  pub send_with_per_kb_fee : String → ℕ → ℕ → Bool → M Node String
  pub send_with_fixed_fee : String → ℕ → ℕ → Bool → M Node String
  pub is_mine : String → M Node Bool
  pub get_confirmed_and_unconfirmed_balance : M Node (ℕ × ℕ)

pub record Settings : Type 0 where
  pub min_withdraw : ℕ
  pub min_fee_per_kb : ℕ
  pub min_fee_fixed : ℕ
  pub min_withdraw_without_manual_confirmation : ℕ
  pub max_confirmations : ℤ
  pub hot_wallet_address_setting : String
  pub cold_wallet_address_setting : String

pub record Backend (Db Node : Type 0) : Type 0 where
  pub storage : Storage Db
  pub sql : Sql Db
  pub notify : EventType → Payload → M Db (Unit {0})
  pub node_api : NodeApi Node
  pub settings : Settings
  pub open settings use *

-- `tx` is the object that the running method's argument `tx *Transaction` points to.
-- `triggers` counts what waits in the channel pendingTxUpdateTrigger, `retries_scheduled` the
-- timers set by updatePendingTxns, `notifications_sent` the calls of SendNotifications.
pub record World (Db Node : Type 0) : Type 0 where
  pub db : Db
  pub node : Node
  pub tx : Transaction
  pub hot_wallet_address : String
  pub cold_wallet_address : String
  pub waiting_manual_confirmation : ℤ
  pub waiting_blockchain_confirmation : ℤ
  pub triggers : ℕ
  pub retries_scheduled : ℕ
  pub notifications_sent : ℕ

module _ {Db Node A : Type 0} where
  -- A call of the storage or of the event broker, and one of the node.
  abbrev pub on_db : M Db A → M (World Db Node) A
  on_db m w = let (r, d) = m w.db in (r, record w { db = d })

  abbrev pub on_node : M Node A → M (World Db Node) A
  on_node m w = let (r, n) = m w.node in (r, record w { node = n })

  -- A method called with a pointer to another transaction.
  abbrev pub with_tx : Transaction → M (World Db Node) A → M (World Db Node) A
  with_tx t m w = let (r, w') = m (record w { tx = t }) in (r, record w' { tx = w.tx })

module _ {Db Node : Type 0} where
  abbrev pub set_tx : (Transaction → Transaction) → M (World Db Node) (Unit {0})
  set_tx f w = (ok tt, record w { tx = f w.tx })

  abbrev pub send_notifications : M (World Db Node) (Unit {0})
  send_notifications w = (ok tt, record w { notifications_sent = suc w.notifications_sent })

  -- A send that does not wait, on a channel of capacity 3.
  unfoldable pub schedule_pending_tx_update : M (World Db Node) (Unit {0})
  schedule_pending_tx_update w =
      (ok tt, record w { triggers = if ltb w.triggers 3 then suc w.triggers else w.triggers })

module _ {Db Node : Type 0} (b : Backend Db Node) where
  abbrev pub wallet_sql : Sql (World Db Node)
  wallet_sql = record {
    available = b.sql.available;
    begin = on_db b.sql.begin;
    commit = on_db b.sql.commit;
    roll_back = λ before now. record now { db = b.sql.roll_back before.db now.db };
  }

  -- `Wallet.MakeTransactIfAvailable` of wallet/dbtransaction.go
  unfoldable pub transact : {A : Type 0} → M (World Db Node) A → M (World Db Node) A
  unfolding make_transact_if_available
  transact f = make_transact_if_available wallet_sql f

module _ {Db Node : Type 0} (b : Backend Db Node) where
  -- `storage.StoreTransaction(tx)`: the argument may change, and the stored one is returned.
  abbrev pub store_transaction : M (World Db Node) Transaction
  store_transaction w =
      (on_db (b.storage.store_transaction w.tx) >>= λ p. λ v. (ok p.1, record v { tx = p.0 })) w
