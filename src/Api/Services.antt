-- ===== src/Api/Services.antt =====
-- What the API calls: the methods of Wallet (package wallet) and of the event broker (package
-- events), and the wallet's functions as such a service.
use bitcoin_processing.Base.{ℕ, String, Bool, List}
use bitcoin_processing.Base.Int.{ℤ}
use bitcoin_processing.Types.Json.{Json}
use bitcoin_processing.Types.Transaction.{Transaction}
use bitcoin_processing.Events.Types.{Account, NotificationWithSeq}
use bitcoin_processing.Monad.{M}
use bitcoin_processing.Wallet.Withdraw.{WithdrawRequest}
use bitcoin_processing.Wallet.Info.{}

-- `withdraw` returns its argument as the call leaves it: the address may be filled in.
pub record WalletService (S : Type 0) : Type 0 where
  pub create_account : Json → M S Account
  pub trigger_wallet_update : S → S
  pub withdraw : WithdrawRequest → Bool → M S WithdrawRequest
  pub get_hot_wallet_address : S → String
  pub get_transactions_with_filter : String → String → M S (List Transaction)
  pub get_balance : M S (ℕ × ℕ)
  pub get_money_required_from_cold_storage : M S ℕ
  pub cancel_pending_tx : ℕ → M S (Unit {0})
  pub confirm_pending_transaction : ℕ → M S (Unit {0})

pub record BrokerService (S : Type 0) : Type 0 where
  pub get_events_from_seq : ℤ → M S (List NotificationWithSeq)
  pub mute_events_with_tx_id : ℕ → M S (Unit {0})
