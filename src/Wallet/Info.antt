-- ===== src/Wallet/Info.antt =====
-- wallet/info.go and wallet/integrity.go: queries, and the check when the daemon starts.
use bitcoin_processing.Base.{ℕ, String, List, ◌+◌, ◌%◌, ◌^◌, if◌then◌else◌, length}
use bitcoin_processing.Base.Int.{pos}
use bitcoin_processing.Types.Status.{TransactionStatus, status_string}
use bitcoin_processing.Types.Transaction.{Transaction}
use bitcoin_processing.Monad
use bitcoin_processing.Monad.{ok, M, throw, catch, pure, modify, skip, ◌>>=◌, ◌>>◌}
use bitcoin_processing.Wallet.Interfaces.{Backend, World, on_db, on_node}

module _ {Db Node : Type 0} (b : Backend Db Node) where
  unfoldable pub get_transactions_with_filter :
      String → String → M (World Db Node) (List Transaction)
  get_transactions_with_filter direction status =
      on_db (b.storage.get_transactions_with_filter direction status)

  -- The confirmed balance, and the balance with what is unconfirmed (uint64).
  unfoldable pub get_balance : M (World Db Node) (ℕ × ℕ)
  get_balance = do
    balance ← on_node b.node_api.get_confirmed_and_unconfirmed_balance
    pure (balance.0, (balance.0 + balance.1) % 2 ^ 64)

  unfoldable pub get_money_required_from_cold_storage : M (World Db Node) ℕ
  get_money_required_from_cold_storage = on_db b.storage.get_money_required_from_cold_storage

  -- `initPendingManualConfirmationsTxMetric` of wallet/pending.go
  unfoldable pub init_pending_manual_confirmations_tx_metric : M (World Db Node) (Unit {0})
  init_pending_manual_confirmations_tx_metric = do
    txns ←
        get_transactions_with_filter ""
          (status_string TransactionStatus.pending_manual_confirmation)
    modify (λ w. record w { waiting_manual_confirmation = pos (length txns) })

  -- `Check`: the daemon does not start while the wallet is locked (log.Fatalf ends the process).
  unfoldable pub check : M (World Db Node) (Unit {0})
  check = do
    lock ← catch (on_db b.storage.check_wallet_lock) (λ e. throw (Monad.failed e))
    if lock.0 then skip else throw Monad.locked
