-- ===== src/Wallet/Notify.antt =====
-- wallet/notify.go, and of wallet/updates.go: the event type, the status by confirmations, and
-- notifyTransaction, which reports each confirmation once.
pub mod Status
pub mod Reports
pub mod Unknown
use bitcoin_processing.Base.{ℕ, zero, suc, Bool, ◌+◌, ◌-◌, ◌==◌, ◌&&◌, ◌||◌, not, if◌then◌else◌}
use bitcoin_processing.Base.Int.{ℤ, pos, pos_part, neg_part, ◌+ℤ◌, ◌-ℤ◌, ltb_ℤ, leb_ℤ}
use bitcoin_processing.Util.{min64}
use bitcoin_processing.Types.Status.{
  TransactionStatus, same_status, status_string, to_coinpayments_like_code,
}
use bitcoin_processing.Types.Direction.{
  TransactionDirection, incoming, outgoing, to_coinpayments_like_type,
}
use bitcoin_processing.Types.Transaction.{Transaction, TxNotification}
use bitcoin_processing.Events.Types.{EventType, Payload}
use bitcoin_processing.Monad.{
  Outcome, ok, panic, unexpected_direction, M, gets, lift, modify, skip, pure, ◌>>=◌, ◌>>◌,
}
use bitcoin_processing.Wallet.Interfaces.{Backend, World, on_db, set_tx}

abbrev pub is_zero : ℤ → Bool
is_zero n = pos_part n + neg_part n == 0

unfoldable pub get_transaction_notification_type : ℤ → TransactionDirection → Outcome EventType
get_transaction_notification_type n incoming =
    ok (if is_zero n then EventType.new_incoming_tx else EventType.incoming_tx_confirmed)
get_transaction_notification_type n outgoing =
    ok (if is_zero n then EventType.new_outgoing_tx else EventType.outgoing_tx_confirmed)
get_transaction_notification_type n _ = panic unexpected_direction

-- `setTxStatusByConfirmations`, on the status, with `w.maxConfirmations` first.
unfoldable pub status_by_confirmations : ℤ → ℤ → TransactionStatus → TransactionStatus
status_by_confirmations max n status =
    if not (same_status status TransactionStatus.new)
      && not (same_status status TransactionStatus.confirmed)
      && not (same_status status TransactionStatus.fully_confirmed)
    then status
    else if leb_ℤ n (pos 0)
    then TransactionStatus.new
    else if ltb_ℤ (pos 0) n && ltb_ℤ n max
    then TransactionStatus.confirmed
    else if leb_ℤ max n
    then TransactionStatus.fully_confirmed
    else status

abbrev pub set_tx_status_by_confirmations : ℤ → Transaction → Transaction
set_tx_status_by_confirmations max tx = record tx {
  status = status_by_confirmations max tx.confirmations tx.status;
}

-- The copy of the transaction that is sent for confirmation `i`.
unfoldable pub notification_at : ℤ → Transaction → ℤ → Transaction
notification_at max tx i =
    set_tx_status_by_confirmations max
      (record tx { confirmations = i; block_hash = if is_zero i then "" else tx.block_hash })

unfoldable pub tx_notification : Transaction → TxNotification
tx_notification tx = record {
  transaction = tx;
  status_code = to_coinpayments_like_code tx.status;
  status_str = status_string tx.status;
  ipn_type = to_coinpayments_like_type tx.direction;
  currency = "BTC";
  ipn_id = tx.id;
  seq = 0;
}

-- How often `for i := from; i <= to; i++` goes round.
abbrev pub rounds : ℤ → ℤ → ℕ
rounds from to = suc (pos_part to) + neg_part from - (neg_part to + pos_part from)

module _ {Db Node : Type 0} (b : Backend Db Node) where
  -- `NotifyTransaction`
  unfoldable pub notify_tx : EventType → Transaction → M (World Db Node) (Unit {0})
  notify_tx et tx = on_db (b.notify et (Payload.tx_data (tx_notification tx)))

  -- `storage.updateReportedConfirmations(tx, i)`, which on success sets the number in `tx` too
  abbrev pub report : ℤ → M (World Db Node) (Unit {0})
  report i w =
      (on_db (b.storage.update_reported_confirmations w.tx i) >>= λ _.
      set_tx (λ t. record t { reported_confirmations = i }))
        w

  -- One round of the loop of `notifyTransaction`.
  unfoldable pub notify_round : ℤ → M (World Db Node) (Unit {0})
  notify_round i = do
    tx ← gets (λ w. w.tx)
    event_type ← lift (get_transaction_notification_type i tx.direction)
    notify_tx event_type (notification_at b.settings.max_confirmations tx i)
    report i

  unfoldable pub notify_rounds : ℕ → ℤ → M (World Db Node) (Unit {0})
  notify_rounds zero i = skip
  notify_rounds (suc n) i = do notify_round i; notify_rounds n (i +ℤ pos 1)

  -- The loop starts behind the last confirmation reported and goes up to
  -- `Min64(tx.Confirmations, w.maxConfirmations)`.
  unfoldable pub notify_transaction : M (World Db Node) (Unit {0})
  notify_transaction = do
    tx ← gets (λ w. w.tx)
    let from = tx.reported_confirmations +ℤ pos 1
    let to = min64 tx.confirmations b.settings.max_confirmations
    notify_rounds (rounds from to) from
