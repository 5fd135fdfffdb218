-- ===== src/Wallet/Tests/Requests.antt =====
-- Withdrawals and the wallet updater at concrete inputs.
use bitcoin_processing.Base.{true, false, none, ◌≡◌, ◌⊎◌, ◌↔◌, refl, [], ◌∷◌, ltb, length}
use bitcoin_processing.Base.Int.{pos, ◌-ℤ◌}
use bitcoin_processing.Bitcoin.Fee.{FeeType}
use bitcoin_processing.Types.Json.{Json}
use bitcoin_processing.Types.Status.{TransactionStatus}
use bitcoin_processing.Types.Transaction.{Transaction}
use bitcoin_processing.Monad
use bitcoin_processing.Monad.{Fault, panic, ok, err, panic, unexpected_direction}
use bitcoin_processing.Wallet.Interfaces.{World}
use bitcoin_processing.Wallet.Send.{
  persist_withdraw_result_with_retry, store_sent, send_request, handle_withdrawal_success,
  send_withdrawal,
}
use bitcoin_processing.Wallet.Send.Once.{send_withdrawal_once}
use bitcoin_processing.Wallet.Send.Saving.{
  persist_withdraw_result_with_retry_ends, handle_withdrawal_success_saves,
}
use bitcoin_processing.Wallet.Pending.{is_pending, cancel_pending_tx, confirm_pending_tx}
use bitcoin_processing.Wallet.Pending.Requests.{cancel_pending_tx_ok, confirm_pending_tx_ok}
use bitcoin_processing.Wallet.Withdraw.{
  WithdrawRequest, check_withdraw_limits, outgoing_tx, prepare_withdraw, withdraw,
}
use bitcoin_processing.Wallet.Withdraw.Checks.{WithinLimits, check_withdraw_limits_lem}
use bitcoin_processing.Wallet.Withdraw.Taken.{withdraw_taken}
use bitcoin_processing.Wallet.Tests.Internal.{keeps}
use bitcoin_processing.Wallet.Addresses.{
  get_or_create_hot_wallet, check_hot_wallet_address, init_hot_wallet, init_cold_wallet,
}
use bitcoin_processing.Wallet.Loop.Addresses.{init_hot_wallet-is_mine, init_cold_wallet-not_mine}
use bitcoin_processing.Wallet.Tests.Double.{evaluation, Db, Node, backend, world, tx}

abbrev request : WithdrawRequest
request = record {
  id = 8;
  address = "somebody";
  amount = 150;
  fee = 2;
  fee_type = "fixed";
  metainfo = Json.null;
}

check_withdraw_limits_example :
    (check_withdraw_limits backend.settings request FeeType.fixed ≡ ok true)
    ↔ (WithinLimits backend.settings request FeeType.fixed × (true ≡ ltb 100 150))
check_withdraw_limits_example =
    check_withdraw_limits_lem backend.settings request FeeType.fixed true

abbrev requested : Transaction
requested = outgoing_tx request false FeeType.fixed "somebody"

request_accepted : prepare_withdraw backend.settings "hot" "" request false ≡ ok (requested, true)
unfolding evaluation
request_accepted = refl

abbrev pending_tx : Transaction
pending_tx = record tx { id = 8; status = TransactionStatus.pending }

abbrev held_tx : Transaction
held_tx = record tx { id = 9; status = TransactionStatus.pending_manual_confirmation }

abbrev waiting : World Db Node
waiting = record world { db = record world.db { txs = pending_tx ∷ held_tx ∷ [] } }

withdraw_taken_example : withdraw backend request false waiting ≡ (err (Monad.tx_exists 8), waiting)
unfolding evaluation
withdraw_taken_example =
    withdraw_taken backend request false waiting requested true pending_tx request_accepted refl

-- The withdrawal of 50 is sent, with 60 in the wallet.
sent_once : (send_withdrawal backend true world).1.node ≡ (send_request backend tx world.node).1
unfolding evaluation
sent_once = refl

send_withdrawal_once_example :
    ((send_withdrawal backend true world).1.node ≡ world.node)
    ⊎ (((backend.storage.get_account_by_address "somebody" world.db).0 ≡ ok none)
        × ((send_withdrawal backend true world).1.node ≡ (send_request backend tx world.node).1))
send_withdrawal_once_example = send_withdrawal_once backend true world

-- Where unlocking fails once, the money is sent and the second attempt to save that succeeds, but
-- no event is left: the first attempt's was rolled back with it, and the transaction in memory
-- says that it was reported.
abbrev stuck_once : World Db Node
stuck_once = record world { db = record world.db { failing_unlocks = 1 } }

one_event : length (handle_withdrawal_success backend "txhash" world).1.db.log ≡ 1
unfolding evaluation
one_event = refl

no_event : (handle_withdrawal_success backend "txhash" stuck_once).1.db.log ≡ []
unfolding evaluation
no_event = refl

cancel_ok : (cancel_pending_tx backend 8 waiting).0 ≡ ok tt
unfolding evaluation
cancel_ok = refl

cancel_pending_tx_ok_example :
    ((d : Db) × (t : Transaction) × ((backend.storage.get_transaction_by_id 8 d).0 ≡ ok t)
      × (is_pending t.status ≡ true))
    × ((cancel_pending_tx backend 8 waiting).1.waiting_manual_confirmation ≡ pos 0 -ℤ pos 1)
cancel_pending_tx_ok_example = cancel_pending_tx_ok backend 8 waiting cancel_ok

confirm_ok : (confirm_pending_tx backend 9 waiting).0 ≡ ok tt
unfolding evaluation
confirm_ok = refl

confirm_pending_tx_ok_example :
    (d : Db) × (t : Transaction) × ((backend.storage.get_transaction_by_id 9 d).0 ≡ ok t)
    × (t.status ≡ TransactionStatus.pending_manual_confirmation)
confirm_pending_tx_ok_example = confirm_pending_tx_ok backend 9 waiting confirm_ok

hot_ok : (init_hot_wallet backend world).0 ≡ ok tt
unfolding evaluation init_hot_wallet get_or_create_hot_wallet check_hot_wallet_address
hot_ok = refl

init_hot_wallet-is_mine_example :
    ((backend.settings.hot_wallet_address_setting ≡ "")
      ⊎ ((init_hot_wallet backend world).1.hot_wallet_address ≡ "hot"))
    × ((n : Node) × ((backend.node_api.is_mine
            (init_hot_wallet backend world).1.hot_wallet_address
            n).0
          ≡ ok true))
init_hot_wallet-is_mine_example = init_hot_wallet-is_mine backend world hot_ok

cold_ok : (init_cold_wallet backend world).0 ≡ ok tt
unfolding evaluation init_cold_wallet
cold_ok = refl

init_cold_wallet-not_mine_example :
    ((init_cold_wallet backend world).1.cold_wallet_address ≡ "")
    × ((backend.settings.cold_wallet_address_setting ≡ "")
        ⊎ ((backend.node_api.is_mine "" world.node).0 ≡ ok false))
init_cold_wallet-not_mine_example = init_cold_wallet-not_mine backend world cold_ok

persist_withdraw_result_with_retry_ends_example :
    ((v : World Db Node) × ((store_sent backend v).0 ≡ ok tt)
      × (persist_withdraw_result_with_retry (store_sent backend) 10 stuck_once
          ≡ store_sent backend v))
    ⊎ ((x : Fault) × ((persist_withdraw_result_with_retry (store_sent backend) 10 stuck_once).0
          ≡ panic x))
persist_withdraw_result_with_retry_ends_example =
    persist_withdraw_result_with_retry_ends (store_sent backend) 10 stuck_once

handle_withdrawal_success_saves_example :
    ((v : World Db Node) × (v.tx.hash ≡ "txhash")
      × (v.tx.status ≡ TransactionStatus.new)
      × ((store_sent backend v).0 ≡ ok tt)
      × (handle_withdrawal_success backend "txhash" stuck_once ≡ store_sent backend v)
      × (d : Db) × (p : Transaction × Transaction) × ((backend.storage.store_transaction v.tx d).0
          ≡ ok p))
    ⊎ ((x : Fault) × ((handle_withdrawal_success backend "txhash" stuck_once).0 ≡ panic x))
handle_withdrawal_success_saves_example =
    handle_withdrawal_success_saves backend keeps "txhash" stuck_once
