-- ===== src/Wallet/Frame/Sending.antt =====
-- What sending, storing and reporting a transaction leaves alone.
use bitcoin_processing.Base.{ℕ, zero, suc, Bool, String}
use bitcoin_processing.Base.Int.{ℤ, pos, ◌+ℤ◌}
use bitcoin_processing.Types.Status.{TransactionStatus}
use bitcoin_processing.Types.Transaction.{Transaction}
use bitcoin_processing.Events.Types.{EventType, Account}
use bitcoin_processing.Monad.{Error, ok, M}
use bitcoin_processing.Wallet.Interfaces.{Backend, World, on_db, store_transaction}
use bitcoin_processing.Wallet.Notify.{
  notify_tx, report, notify_round, notify_rounds, notify_transaction,
}
use bitcoin_processing.Wallet.Send.{
  persist_withdraw_result_with_retry, update_pending_tx_status, internal_transfer, store_sent,
  handle_withdrawal_success, store_failed, handle_withdrawal_error,
}
use bitcoin_processing.Wallet.Frame.{
  Keeps, Keeps->>=, Apart, Keeps-on_db, Keeps-set_tx, frame_rules,
}

module _ {Db Node X : Type 0} (b : Backend Db Node) (p : World Db Node → X) (a : Apart p) where
  Keeps-notify_tx : (et : EventType) (t : Transaction) → Keeps p (notify_tx b et t)
  unfolding notify_tx
  Keeps-notify_tx et t = Keeps-on_db b p a _

  Keeps-report : (i : ℤ) → Keeps p (report b i)
  Keeps-report i = record {
    kept = λ w.
        (Keeps->>= p (on_db (b.storage.update_reported_confirmations w.tx i)) _
            (Keeps-on_db b p a _)
            (λ _. Keeps-set_tx b p a (λ t. record t { reported_confirmations = i }))).kept
          w;
  }

  pub Keeps-store_transaction : Keeps p (store_transaction b)
  Keeps-store_transaction = record {
    kept = λ w.
        (Keeps->>= p (on_db (b.storage.store_transaction w.tx))
            (λ r. λ v. (ok r.1, record v { tx = r.0 })) (Keeps-on_db b p a _)
            (λ r. record { kept = λ v. a.apart_tx v r.0 })).kept
          w;
  }

  Keeps-round : (i : ℤ) → Keeps p (notify_round b i)
  unfolding notify_round
  Keeps-round i = search (frame_rules, a, Keeps-notify_tx, Keeps-report)

  Keeps-rounds : (n : ℕ) (i : ℤ) → Keeps p (notify_rounds b n i)
  unfolding notify_rounds
  Keeps-rounds zero i = search frame_rules
  Keeps-rounds (suc n) i =
      Keeps->>= p (notify_round b i) (λ _. notify_rounds b n (i +ℤ pos 1)) (Keeps-round i)
        (λ _. Keeps-rounds n (i +ℤ pos 1))

  pub Keeps-notify_transaction : Keeps p (notify_transaction b)
  unfolding notify_transaction
  Keeps-notify_transaction = search (frame_rules, Keeps-rounds)

  pub Keeps-retry :
      (m : M (World Db Node) (Unit {0})) (n : ℕ)
      → Keeps p m
      → Keeps p (persist_withdraw_result_with_retry m n)
  unfolding persist_withdraw_result_with_retry
  Keeps-retry m zero h = search (frame_rules, h)
  Keeps-retry m (suc n) h = search (frame_rules, h, Keeps-retry m n h)

  pub Keeps-update_pending_tx_status :
      (s : TransactionStatus) → Keeps p (update_pending_tx_status b s)
  unfolding update_pending_tx_status
  Keeps-update_pending_tx_status s =
      search (frame_rules, a, Keeps-store_transaction, Keeps-notify_tx) depth 20

  pub Keeps-internal_transfer : (account : Account) → Keeps p (internal_transfer b account)
  unfolding internal_transfer
  Keeps-internal_transfer account =
      search (frame_rules, a, Keeps-store_transaction, Keeps-notify_transaction) depth 20

  Keeps-store_sent : Keeps p (store_sent b)
  unfolding store_sent
  Keeps-store_sent =
      search (frame_rules, a, Keeps-store_transaction, Keeps-notify_transaction) depth 20

  pub Keeps-handle_withdrawal_success : (h : String) → Keeps p (handle_withdrawal_success b h)
  unfolding handle_withdrawal_success
  Keeps-handle_withdrawal_success h = search (frame_rules, a, Keeps-retry, Keeps-store_sent)

  Keeps-store_failed : (c : Bool) → Keeps p (store_failed b c)
  unfolding store_failed
  Keeps-store_failed c = search (frame_rules, a, Keeps-update_pending_tx_status) depth 20

  pub Keeps-handle_withdrawal_error : (e : Error) → Keeps p (handle_withdrawal_error b e)
  unfolding handle_withdrawal_error
  Keeps-handle_withdrawal_error e = search (frame_rules, a, Keeps-retry, Keeps-store_failed)
