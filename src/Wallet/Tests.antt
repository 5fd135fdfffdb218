-- ===== src/Wallet/Tests.antt =====
-- Evaluations of the wallet at concrete inputs, and the theorems at inputs that meet their
-- hypotheses.
mod Internal
mod Double
mod Requests
mod Notifications
mod Tables
mod Postgres
mod Memory
use bitcoin_processing.Base.{
  ℕ, ◌-◌, ◌+◌, ◌≡◌, refl, inl, inr, List, [], ◌∷◌, ◌++◌, arith, length, map,
}
use bitcoin_processing.Base.Int.{ℤ, pos, negsuc, ◌+ℤ◌, ◌-ℤ◌}
use bitcoin_processing.Types.Status.{TransactionStatus}
use bitcoin_processing.Types.Transaction.{Transaction}
use bitcoin_processing.Monad.{ok}
use bitcoin_processing.Wallet.Interfaces.{World}
use bitcoin_processing.Wallet.Notify.{notify_transaction}
use bitcoin_processing.Wallet.Notify.Reports.{notify_transaction_twice}
use bitcoin_processing.Wallet.Pending.{try_to_update_pending_txns}
use bitcoin_processing.Wallet.Pending.Money.{update_money_required}
use Double.{evaluation, Db, Node, backend, world, tx, money_laws, event_laws}

-- Withdrawals of 50, 30, 40 and 90 satoshi with 60 confirmed and 20 unconfirmed.
abbrev pending_of : ℕ → ℕ → Transaction
pending_of id amount = record tx { id = id; amount = amount; status = TransactionStatus.pending }

abbrev pending_txs : List Transaction
pending_txs = pending_of 1 50 ∷ pending_of 2 30 ∷ pending_of 3 40 ∷ pending_of 4 90 ∷ []

abbrev busy : World Db Node
busy = record world { db = record world.db { txs = pending_txs } }

busy_result : (try_to_update_pending_txns backend busy).0 ≡ ok tt
unfolding evaluation
busy_result = refl

-- The withdrawal of 30 is sent, that of 40 waits for the unconfirmed balance, and for the other
-- two 130 satoshi are missing.
update_money_required_example :
    (try_to_update_pending_txns backend busy).1.db.money ≡ 210 - (60 + 20)
unfolding evaluation
update_money_required_example =
    update_money_required backend money_laws busy pending_txs 60 20 refl refl (omega arith)
      (omega arith) busy_result

notify_transaction_twice_example :
    notify_transaction backend (notify_transaction backend world).1
    ≡ (ok tt, (notify_transaction backend world).1)
unfolding evaluation
notify_transaction_twice_example = notify_transaction_twice backend event_laws world refl
