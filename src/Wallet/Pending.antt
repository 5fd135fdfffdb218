-- ===== src/Wallet/Pending.antt =====
-- wallet/pending.go: the pending withdrawals against the balance, cancelling and confirming.
pub mod Amounts
pub mod Money
pub mod Requests
use bitcoin_processing.Base.{ℕ, suc, Bool, true, false, List, [], ◌∷◌, ltb, leb, if◌then◌else◌}
use bitcoin_processing.Base.Int.{ℤ, pos, ◌-ℤ◌, leb_ℤ, to_int64, to_uint64, add64, sub64}
use bitcoin_processing.Types.Status.{TransactionStatus, same_status}
use bitcoin_processing.Types.Transaction.{Transaction}
use bitcoin_processing.Monad.{
  not_pending, not_pending_manual_confirmation, ok, M, fail, gets, catch, pure, modify, skip, ◌>>=◌,
  ◌>>◌,
}
use bitcoin_processing.Wallet.Interfaces.{
  Backend, World, on_db, on_node, with_tx, send_notifications, transact,
}
use bitcoin_processing.Wallet.Send.{update_pending_tx_status, send_withdrawal}

-- `sort.Slice` by amount; it leaves the order of equal amounts open.
unfoldable pub insert_by_amount : Transaction → List Transaction → List Transaction
insert_by_amount t [] = t ∷ []
insert_by_amount t (u ∷ us) =
    if leb t.amount u.amount then t ∷ u ∷ us else u ∷ insert_by_amount t us

unfoldable pub sort_by_amount : List Transaction → List Transaction
unfolding insert_by_amount
sort_by_amount [] = []
sort_by_amount (t ∷ ts) = insert_by_amount t (sort_by_amount ts)

-- `availableBalance-amount >= 0`, on int64.
abbrev pub affords : ℤ → Transaction → Bool
affords available t = leb_ℤ (pos 0) (sub64 available (to_int64 t.amount))

abbrev pub is_pending : TransactionStatus → Bool
is_pending TransactionStatus.pending = true
is_pending TransactionStatus.pending_cold_storage = true
is_pending TransactionStatus.pending_manual_confirmation = true
is_pending _ = false

module _ {Db Node : Type 0} (act : M (World Db Node) (Unit {0})) where
  -- Both loops of tryToUpdatePendingTxns that stop at the first transaction that the balance does
  -- not cover: they return the balance left, and the transactions from that one on (none of them
  -- where `exceedingTx` stays -1).
  unfoldable pub spend : ℤ → List Transaction → M (World Db Node) (ℤ × List Transaction)
  spend available [] = pure (available, [])
  spend available (t ∷ ts) =
      let rest = with_tx t act >>= λ _. spend (sub64 available (to_int64 t.amount)) ts in
      if affords available t then rest else pure (available, t ∷ ts)

  -- The loop over the transactions that the balance does not cover.
  unfoldable pub overdraw : ℤ → List Transaction → M (World Db Node) ℤ
  overdraw available [] = pure available
  overdraw available (t ∷ ts) =
      with_tx t act >>= λ _. overdraw (sub64 available (to_int64 t.amount)) ts

module _ {Db Node : Type 0} (b : Backend Db Node) where
  abbrev pub set_money_required : ℕ → M (World Db Node) (Unit {0})
  set_money_required amount = on_db (b.storage.set_money_required_from_cold_storage amount)

  -- The loop that counts on the unconfirmed balance, if there is any.
  unfoldable pub spend_unconfirmed :
      ℕ → ℤ → List Transaction → M (World Db Node) (ℤ × List Transaction)
  spend_unconfirmed unconf available ts =
      if ltb 0 unconf
      then spend (update_pending_tx_status b TransactionStatus.pending)
          (add64 available (to_int64 unconf)) ts
      else pure (available, ts)

  -- What is left then is to be paid for from cold storage.
  unfoldable pub require_money : ℤ → List Transaction → M (World Db Node) (Unit {0})
  require_money available [] = set_money_required 0
  require_money available (t ∷ ts) = do
    left ←
        overdraw (update_pending_tx_status b TransactionStatus.pending_cold_storage) available
          (t ∷ ts)
    set_money_required (to_uint64 (sub64 (pos 0) left))

  -- The transaction at the end of tryToUpdatePendingTxns.
  unfoldable pub settle_unfunded : ℕ → ℤ → List Transaction → M (World Db Node) (Unit {0})
  settle_unfunded unconf available [] = set_money_required 0
  settle_unfunded unconf available (t ∷ ts) =
      transact b
        (do after ← spend_unconfirmed unconf available (t ∷ ts); require_money after.0 after.1)

  unfoldable pub try_to_update_pending_txns : M (World Db Node) (Unit {0})
  try_to_update_pending_txns = do
    pending ← on_db b.storage.get_pending_transactions
    balance ← on_node b.node_api.get_confirmed_and_unconfirmed_balance
    after ← spend (send_withdrawal b false) (to_int64 balance.0) (sort_by_amount pending)
    settle_unfunded balance.1 after.0 after.1

  -- On an error a timer is set that triggers the next try.
  unfoldable pub update_pending_txns : M (World Db Node) (Unit {0})
  update_pending_txns =
      catch (do try_to_update_pending_txns; send_notifications)
        (λ e. modify (λ w. record w { retries_scheduled = suc w.retries_scheduled }))

  abbrev pub confirmed_or_cancelled_one : M (World Db Node) (Unit {0})
  confirmed_or_cancelled_one =
      modify
        (λ w. record w { waiting_manual_confirmation = w.waiting_manual_confirmation -ℤ pos 1 })

  abbrev pub cancel_if_pending : Transaction → M (World Db Node) (Unit {0})
  cancel_if_pending tx =
      if is_pending tx.status
      then with_tx tx (update_pending_tx_status b TransactionStatus.cancelled)
      else fail not_pending

  -- The transaction of `cancelPendingTx`.
  unfoldable pub cancel_stored : ℕ → M (World Db Node) (Unit {0})
  cancel_stored id = transact b (on_db (b.storage.get_transaction_by_id id) >>= cancel_if_pending)

  unfoldable pub cancel_pending_tx : ℕ → M (World Db Node) (Unit {0})
  cancel_pending_tx id = do
    cancel_stored id
    confirmed_or_cancelled_one
    update_pending_txns
    send_notifications

  abbrev pub confirm_if_held : Transaction → M (World Db Node) (Unit {0})
  confirm_if_held tx =
      if same_status tx.status TransactionStatus.pending_manual_confirmation
      then (do with_tx tx (send_withdrawal b true); confirmed_or_cancelled_one)
      else fail (not_pending_manual_confirmation tx.status)

  unfoldable pub confirm_pending_tx : ℕ → M (World Db Node) (Unit {0})
  confirm_pending_tx id = do
    tx ← transact b (on_db (b.storage.get_transaction_by_id id))
    confirm_if_held tx
