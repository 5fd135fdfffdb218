-- ===== src/Wallet/Updates.antt =====
-- wallet/updates.go: what the node reports about transactions, and the events of the main loop.
use bitcoin_processing.Base.{
  Bool, false, List, [], ◌∷◌, Option, none, some, ◌&&◌, ◌||◌, not, str_eq, length, if◌then◌else◌,
}
use bitcoin_processing.Base.Int.{pos, ◌-ℤ◌}
use bitcoin_processing.Types.Json.{Json, Fields}
use bitcoin_processing.Types.Status.{TransactionStatus, same_status}
use bitcoin_processing.Types.Direction.{TransactionDirection, same_direction}
use bitcoin_processing.Types.Transaction.{
  Transaction, ListTransactionsResult, new_transaction_from_btcjson, update_from_full_tx_info,
}
use bitcoin_processing.Events.Types.{Account}
use bitcoin_processing.Monad.{other_hash, M, gets, throw, catch, pure, modify, skip, ◌>>=◌, ◌>>◌}
use bitcoin_processing.Wallet.Interfaces.{
  Backend, World, on_db, on_node, with_tx, set_tx, send_notifications, transact, store_transaction,
}
use bitcoin_processing.Wallet.Notify.{set_tx_status_by_confirmations, notify_transaction}
use bitcoin_processing.Wallet.Pending.{update_pending_txns}

abbrev pub unknown_account_error : Json
unknown_account_error =
    Json.object (Fields.field "error" (Json.text "account not found") Fields.end)

abbrev pub hot_storage_meta : Json
hot_storage_meta = Json.object (Fields.field "kind" (Json.text "input to hot storage") Fields.end)

-- The metainfo of `getAccountMetainfo`, by what the storage found.
abbrev pub account_metainfo : Option Account → Json
account_metainfo none = unknown_account_error
account_metainfo (some account) = account.metainfo

module _ {Db Node : Type 0} (b : Backend Db Node) where
  unfoldable pub get_account_metainfo : M (World Db Node) Json
  get_account_metainfo = do
    tx ← gets (λ w. w.tx)
    account ← on_db (b.storage.get_account_by_address tx.address)
    pure (account_metainfo account)

  -- The first part of `updateTxInfo`: the metainfo of an incoming transaction.
  unfoldable pub set_metainfo : Bool → M (World Db Node) (Unit {0})
  set_metainfo is_hot_storage_tx = do
    tx ← gets (λ w. w.tx)
    if not (same_direction tx.direction TransactionDirection.incoming)
        then skip
        else if is_hot_storage_tx
        then set_tx (λ t. record t { metainfo = hot_storage_meta })
        else get_account_metainfo >>= λ m. set_tx (λ t. record t { metainfo = m })

  -- The last part: internal transactions are not reported.
  unfoldable pub notify_unless_internal : Bool → M (World Db Node) (Unit {0})
  notify_unless_internal is_hot_storage_tx = do
    tx ← gets (λ w. w.tx)
    if not is_hot_storage_tx && not tx.cold_storage then notify_transaction b else skip

  -- Tells whether the transaction is new or has changed its status.
  unfoldable pub update_tx_info : M (World Db Node) Bool
  update_tx_info = do
    tx ← gets (λ w. w.tx)
    hot ← gets (λ w. w.hot_wallet_address)
    let is_hot_storage_tx = str_eq tx.address hot
    set_metainfo is_hot_storage_tx
    set_tx (set_tx_status_by_confirmations b.settings.max_confirmations)
    stored ← store_transaction b
    with_tx stored (notify_unless_internal is_hot_storage_tx)
    pure (stored.fresh || not (same_status tx.status stored.status))

  unfoldable pub update_new : Bool → List ListTransactionsResult → M (World Db Node) Bool
  update_new any_changed [] = pure any_changed
  update_new any_changed (t ∷ ts) =
      with_tx (new_transaction_from_btcjson t) update_tx_info >>= λ changed.
      update_new (any_changed || changed) ts

  -- The transaction of `checkForNewTransactions`.
  unfoldable pub process_new_transactions : M (World Db Node) Bool
  process_new_transactions = transact b (do
    last_seen_block ← on_db b.storage.get_last_seen_block_hash
    reported ← on_node (b.node_api.list_transactions_since_block last_seen_block)
    any_changed ← update_new false reported.0
    on_db (b.storage.set_last_seen_block_hash reported.1)
    pure any_changed)

  -- What follows such a transaction: an error is logged, and the next poll tries again.
  unfoldable pub follow_up : Option Bool → M (World Db Node) (Unit {0})
  follow_up none = skip
  follow_up (some changed) = send_notifications >> (if changed then update_pending_txns b else skip)

  unfoldable pub after_updates : M (World Db Node) Bool → M (World Db Node) (Unit {0})
  after_updates process = do
    done ← catch (process >>= λ changed. pure (some changed)) (λ e. pure none)
    follow_up done

  unfoldable pub check_for_new_transactions : M (World Db Node) (Unit {0})
  check_for_new_transactions = after_updates process_new_transactions

  -- One transaction of `checkForExistingTransactionUpdates`, once the node has told about it.
  unfoldable pub update_from_node : Option Transaction → M (World Db Node) Bool
  update_from_node none = throw other_hash
  update_from_node (some tx) = do
    set_tx (λ _. tx)
    changed ← update_tx_info
    now ← gets (λ w. w.tx)
    if same_status now.status TransactionStatus.new
          || same_status now.status TransactionStatus.confirmed
        then skip
        else modify (λ w. record w {
          waiting_blockchain_confirmation = w.waiting_blockchain_confirmation -ℤ pos 1;
        })
    pure changed

  unfoldable pub update_existing_one : M (World Db Node) Bool
  update_existing_one = do
    tx ← gets (λ w. w.tx)
    full_tx_info ← on_node (b.node_api.get_transaction tx.hash)
    update_from_node (update_from_full_tx_info tx full_tx_info)

  unfoldable pub update_existing : Bool → List Transaction → M (World Db Node) Bool
  update_existing any_changed [] = pure any_changed
  update_existing any_changed (t ∷ ts) =
      with_tx t update_existing_one >>= λ changed. update_existing (any_changed || changed) ts

  unfoldable pub process_existing_transactions : M (World Db Node) Bool
  process_existing_transactions = transact b (do
    to_check ← on_db (
        b.storage.get_broadcasted_transactions_with_less_confirmations b.settings.max_confirmations)
    modify (λ w. record w { waiting_blockchain_confirmation = pos (length to_check) })
    update_existing false to_check)

  unfoldable pub check_for_existing_transaction_updates : M (World Db Node) (Unit {0})
  check_for_existing_transaction_updates = after_updates process_existing_transactions

  unfoldable pub check_for_wallet_updates : M (World Db Node) (Unit {0})
  check_for_wallet_updates = do check_for_new_transactions; check_for_existing_transaction_updates
