-- ===== src/Wallet/Send.antt =====
-- wallet/withdraw.go from sendWithdrawal to holdWithdrawalUntilConfirmed, and updatePendingTxStatus
-- of wallet/pending.go, which they call.
pub mod Once
pub mod Internal
pub mod Saving
use bitcoin_processing.Base.{
  ℕ, zero, suc, String, Bool, true, false, Option, none, some, ◌⊎◌, inl, inr, ◌-◌, ◌&&◌, not, ltb,
  str_eq, if◌then◌else◌,
}
use bitcoin_processing.Base.Int.{pos, negsuc, ◌+ℤ◌}
use bitcoin_processing.Bitcoin.Fee.{FeeType, per_kb_rate, fixed, same_fee_type}
use bitcoin_processing.Types.Status.{TransactionStatus, same_status}
use bitcoin_processing.Types.Direction.{TransactionDirection}
use bitcoin_processing.Types.Transaction.{Transaction}
use bitcoin_processing.Events.Types.{EventType, Account}
use bitcoin_processing.Monad.{
  Error, rpc_error, fee_exceeds_amount, fee_type_not_supported, aborting, M, fail, throw, gets,
  catch, pure, modify, skip, ◌>>=◌, ◌>>◌,
}
use bitcoin_processing.Wallet.Interfaces.{
  Backend, World, on_db, on_node, with_tx, set_tx, send_notifications, schedule_pending_tx_update,
  transact, store_transaction,
}
use bitcoin_processing.Wallet.Notify.{notify_tx, notify_transaction}

abbrev pub is_insufficient_funds_error : Error → Bool
is_insufficient_funds_error (rpc_error message) = str_eq message "Insufficient funds"
is_insufficient_funds_error _ = false

abbrev pub withdraw_save_retries : ℕ
withdraw_save_retries = 10

abbrev pub pending_event : TransactionStatus → EventType
pending_event status =
    if same_status status TransactionStatus.cancelled
    then EventType.pending_tx_cancelled
    else EventType.pending_status_updated

module _ {S : Type 0} (persist_func : M S (Unit {0})) where
  -- `persistWithdrawResultWithRetry` with that many retries left; the panic comes after the last.
  unfoldable pub persist_withdraw_result_with_retry : ℕ → M S (Unit {0})
  persist_withdraw_result_with_retry zero = catch persist_func (λ _. throw aborting)
  persist_withdraw_result_with_retry (suc retries) =
      catch persist_func (λ _. persist_withdraw_result_with_retry retries)

module _ {Db Node : Type 0} (b : Backend Db Node) where
  unfoldable pub update_pending_tx_status : TransactionStatus → M (World Db Node) (Unit {0})
  update_pending_tx_status status = do
    tx ← gets (λ w. w.tx)
    if same_status status tx.status then skip else (do
      set_tx (λ t. record t { status = status })
      store_transaction b
      tx' ← gets (λ w. w.tx)
      notify_tx b (pending_event status) tx')

  -- The outgoing half of an internal transfer, which one to cold storage does not have.
  abbrev pub outgoing_half : Transaction → M (World Db Node) (Unit {0})
  outgoing_half tx =
      if tx.cold_storage
      then skip
      else store_transaction b >>= λ stored. with_tx stored (notify_transaction b)

  -- The incoming half, under a new id.
  abbrev pub incoming_half : Account → M (World Db Node) (Unit {0})
  incoming_half account =
      set_tx (λ t. record t {
        reported_confirmations = negsuc 0;
        direction = TransactionDirection.incoming;
        metainfo = account.metainfo;
        id = 0;
        amount = t.amount - t.fee;
      })
      >> (store_transaction b >>= λ stored. with_tx stored (notify_transaction b))

  -- The transaction inside `internalWithdrawBetweenOurAccounts`.
  unfoldable pub internal_transfer : Account → M (World Db Node) (Unit {0})
  internal_transfer account = do
    set_tx (λ t. record t {
      confirmations = b.settings.max_confirmations;
      status = TransactionStatus.fully_confirmed;
    })
    tx ← gets (λ w. w.tx)
    outgoing_half tx
    incoming_half account

  -- The amount covers the fee when it is reduced, so the truncated `-` above is exact.
  unfoldable pub internal_withdraw_between_our_accounts : Account → M (World Db Node) (Unit {0})
  internal_withdraw_between_our_accounts account = do
    set_tx (λ t. record t { fee = if same_fee_type t.fee_type fixed then t.fee else 0 })
    tx ← gets (λ w. w.tx)
    if ltb tx.amount tx.fee
        then fail fee_exceeds_amount
        else (do transact b (internal_transfer account); schedule_pending_tx_update)

  -- What is persisted after the node has sent the money.
  unfoldable pub store_sent : M (World Db Node) (Unit {0})
  store_sent = transact b (do
    store_transaction b
    tx ← gets (λ w. w.tx)
    if tx.cold_storage then skip else notify_transaction b
    on_db b.storage.clear_wallet)

  unfoldable pub handle_withdrawal_success : String → M (World Db Node) (Unit {0})
  handle_withdrawal_success tx_hash = do
    set_tx (λ t. record t { status = TransactionStatus.new; hash = tx_hash })
    persist_withdraw_result_with_retry (store_sent) withdraw_save_retries

  -- What is persisted after a failure: a copy of the transaction becomes pending, or nothing does.
  unfoldable pub store_failed : Bool → M (World Db Node) (Unit {0})
  store_failed make_pending = transact b (do
    tx ← gets (λ w. w.tx)
    if make_pending then with_tx tx (update_pending_tx_status TransactionStatus.pending) else skip
    on_db b.storage.clear_wallet)

  unfoldable pub handle_withdrawal_error : Error → M (World Db Node) (Unit {0})
  handle_withdrawal_error e = do
    tx ← gets (λ w. w.tx)
    let make_pending = is_insufficient_funds_error e && not tx.cold_storage
    persist_withdraw_result_with_retry (store_failed make_pending) withdraw_save_retries
    if make_pending then skip else fail e

  -- The node's method that `sendWithdrawal` chooses, and its call; the recipient pays the fee.
  abbrev pub send_request : Transaction → M Node String
  send_request tx =
      if same_fee_type tx.fee_type per_kb_rate
      then b.node_api.send_with_per_kb_fee tx.address tx.amount tx.fee true
      else b.node_api.send_with_fixed_fee tx.address tx.amount tx.fee true

  unfoldable pub send_money : Transaction → M (World Db Node) String
  send_money tx = on_node (send_request tx)

  -- What follows the node's answer, a hash or an error.
  unfoldable pub handle_sent : String ⊎ Error → M (World Db Node) (Unit {0})
  handle_sent (inl h) = handle_withdrawal_success h
  handle_sent (inr e) = handle_withdrawal_error e

  abbrev pub ask_node : Transaction → M (World Db Node) (String ⊎ Error)
  ask_node tx = catch (send_money tx >>= λ h. pure (inl h)) (λ e. pure (inr e))

  abbrev pub finish_sending : Bool → String ⊎ Error → M (World Db Node) (Unit {0})
  finish_sending update_pending sent = do
    handle_sent sent
    send_notifications
    if update_pending then schedule_pending_tx_update else skip

  -- `sendWithdrawal` to an address that is none of our accounts.
  unfoldable pub send_outside : Bool → M (World Db Node) (Unit {0})
  send_outside update_pending = do
    tx ← gets (λ w. w.tx)
    if same_fee_type tx.fee_type FeeType.invalid
        then fail (fee_type_not_supported tx.fee_type)
        else (do
          transact b (on_db (b.storage.lock_wallet tx))
          sent ← ask_node tx
          finish_sending update_pending sent)

  abbrev pub by_our_account : Bool → Option Account → M (World Db Node) (Unit {0})
  by_our_account update_pending none = send_outside update_pending
  by_our_account update_pending (some account) = internal_withdraw_between_our_accounts account

  unfoldable pub send_withdrawal : Bool → M (World Db Node) (Unit {0})
  send_withdrawal update_pending = do
    tx ← gets (λ w. w.tx)
    our_account ← on_db (b.storage.get_account_by_address tx.address)
    by_our_account update_pending our_account

  unfoldable pub hold_withdrawal_until_confirmed : M (World Db Node) (Unit {0})
  hold_withdrawal_until_confirmed = do
    transact b (update_pending_tx_status TransactionStatus.pending_manual_confirmation)
    modify (λ w. record w { waiting_manual_confirmation = w.waiting_manual_confirmation +ℤ pos 1 })
    send_notifications
