-- ===== src/Wallet/Notify/Unknown.antt =====
-- Transactions of an unknown direction.
use bitcoin_processing.Base.{◌≡◌, ◌≢◌, refl, zero, suc, ℕ}
use bitcoin_processing.Base.Int.{ℤ, pos, ◌+ℤ◌, ◌<ℤ◌, int_laws}
use bitcoin_processing.Util.{min64}
use bitcoin_processing.Types.Direction.{TransactionDirection}
use bitcoin_processing.Monad.{panic, unexpected_direction}
use bitcoin_processing.Wallet.Interfaces.{Backend, World}
use bitcoin_processing.Wallet.Notify.{
  rounds, get_transaction_notification_type, notify_round, notify_rounds, notify_transaction,
}

module _ {Db Node : Type 0} (b : Backend Db Node) where
  first_round :
      (n : ℕ) (i : ℤ) (w : World Db Node)
      → w.tx.direction ≡ TransactionDirection.unknown
      → n ≢ 0
      → notify_rounds b n i w ≡ (panic unexpected_direction, w)
  unfolding notify_rounds notify_round get_transaction_notification_type
  first_round zero i w d h = absurd (h refl)
  first_round (suc n) i w d h = rw (d, get_transaction_notification_type) refl

  -- A transaction of an unknown direction whose confirmations, up to the maximum, are above the
  -- number reported last makes notifyTransaction panic, before anything is stored or sent.
  pub notify_transaction_unknown :
      (w : World Db Node)
      → w.tx.direction ≡ TransactionDirection.unknown
      → w.tx.reported_confirmations <ℤ min64 w.tx.confirmations b.settings.max_confirmations
      → notify_transaction b w ≡ (panic unexpected_direction, w)
  unfolding notify_transaction
  notify_transaction_unknown w d h =
      first_round
        (rounds (w.tx.reported_confirmations +ℤ pos 1)
          (min64 w.tx.confirmations b.settings.max_confirmations))
        (w.tx.reported_confirmations +ℤ pos 1) w d (omega int_laws)
