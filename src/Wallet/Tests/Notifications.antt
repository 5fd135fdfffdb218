-- ===== src/Wallet/Tests/Notifications.antt =====
-- Reports of transactions at concrete inputs.
use bitcoin_processing.Base.{◌≡◌, ◌≤◌, inl, inr, refl, arith, [], ◌++◌}
use bitcoin_processing.Base.Int.{pos, negsuc, ◌+ℤ◌}
use bitcoin_processing.Types.Status.{TransactionStatus, status_int}
use bitcoin_processing.Types.Direction.{TransactionDirection}
use bitcoin_processing.Monad.{ok, panic, unexpected_direction}
use bitcoin_processing.Wallet.Interfaces.{World}
use bitcoin_processing.Wallet.Notify.{status_by_confirmations, rounds, notify_transaction}
use bitcoin_processing.Wallet.Notify.Status.{status_by_confirmations_mono}
use bitcoin_processing.Wallet.Notify.Reports.{reports, notify_transaction-reports}
use bitcoin_processing.Wallet.Notify.Unknown.{notify_transaction_unknown}
use bitcoin_processing.Wallet.Tests.Double.{evaluation, Db, Node, backend, world, tx, event_laws}

-- With 2 confirmations and none reported: three events.
abbrev confirmed_twice : World Db Node
confirmed_twice = record world { tx = record tx { confirmations = pos 2 } }

abbrev all_reported : World Db Node
unfolding evaluation
all_reported = (notify_transaction backend confirmed_twice).1

notify_ok : (notify_transaction backend confirmed_twice).0 ≡ ok tt
unfolding evaluation
notify_ok = refl

notify_transaction-reports_example :
    ((notify_transaction backend confirmed_twice).1.db.log
      ≡ []
        ++ reports
            (pos 6)
            confirmed_twice.tx
            (rounds (negsuc 0 +ℤ pos 1) (pos 2))
            (negsuc 0 +ℤ pos 1))
    × ((notify_transaction backend confirmed_twice).1.tx
        ≡ record tx { confirmations = pos 2; reported_confirmations = pos 2 })
unfolding evaluation
notify_transaction-reports_example =
    notify_transaction-reports backend event_laws confirmed_twice notify_ok

status_by_confirmations_mono_example :
    status_int (status_by_confirmations (pos 6) (pos 0) TransactionStatus.new)
    ≤ status_int (status_by_confirmations (pos 6) (pos 7) TransactionStatus.confirmed)
status_by_confirmations_mono_example =
    status_by_confirmations_mono (pos 6) (pos 0) (pos 7) TransactionStatus.new
      TransactionStatus.confirmed (inl refl) (inr (inl refl)) (omega arith)

-- What the node calls a coinbase transaction is of an unknown direction.
abbrev mined : World Db Node
mined = record world { tx = record tx { direction = TransactionDirection.unknown } }

notify_transaction_unknown_example :
    notify_transaction backend mined ≡ (panic unexpected_direction, mined)
notify_transaction_unknown_example = notify_transaction_unknown backend mined refl (omega arith)
