-- ===== src/Wallet/Withdraw.antt =====
-- wallet/withdraw.go: the checks on a withdraw request, and the withdrawal in the wallet updater.
pub mod Checks
pub mod Taken
use bitcoin_processing.Base.{
  ℕ, String, Bool, true, false, none, some, ◌&&◌, not, ltb, str_eq, if◌then◌else◌,
}
use bitcoin_processing.Base.Int.{pos, negsuc}
use bitcoin_processing.Bitcoin.Fee.{
  FeeType, per_kb_rate, fixed, same_fee_type, fee_type_from_string,
}
use bitcoin_processing.Types.Json.{Json}
use bitcoin_processing.Types.Status.{TransactionStatus}
use bitcoin_processing.Types.Direction.{TransactionDirection}
use bitcoin_processing.Types.Transaction.{Transaction}
use bitcoin_processing.Monad
use bitcoin_processing.Monad.{
  Error, Outcome, ok, err, panic, M, fail, throw, lift, gets, skip, ◌>>=◌, ◌>>◌,
}
use bitcoin_processing.Wallet.Interfaces.{Settings, Backend, World, on_db, with_tx}
use bitcoin_processing.Wallet.Send.{send_withdrawal, hold_withdrawal_until_confirmed}

pub record WithdrawRequest : Type 0 where
  pub id : ℕ
  pub address : String
  pub amount : ℕ
  pub fee : ℕ
  pub fee_type : String
  pub metainfo : Json

-- `checkWithdrawLimits`: whether a manual confirmation is needed, or the error.
unfoldable pub check_withdraw_limits : Settings → WithdrawRequest → FeeType → Outcome Bool
check_withdraw_limits s r fee_type =
    if ltb r.amount s.min_withdraw
    then err Monad.below_min_withdraw
    else if same_fee_type fee_type per_kb_rate && ltb r.fee s.min_fee_per_kb
    then err Monad.below_min_fee_per_kb
    else if same_fee_type fee_type fixed && ltb r.fee s.min_fee_fixed
    then err Monad.below_min_fee_fixed
    else ok (ltb s.min_withdraw_without_manual_confirmation r.amount)

-- The address of the withdrawal: that of the request, or the cold wallet's of the settings.
abbrev pub withdraw_address : Bool → String → String → Outcome String
withdraw_address to_cold_storage cold address =
    if not (str_eq address "")
    then ok address
    else if not to_cold_storage
    then err Monad.empty_address
    else if str_eq cold ""
    then err Monad.no_cold_wallet_address
    else ok cold

abbrev pub outgoing_tx : WithdrawRequest → Bool → FeeType → String → Transaction
outgoing_tx r to_cold_storage fee_type address = record {
  id = r.id;
  hash = "";
  block_hash = "";
  confirmations = pos 0;
  address = address;
  direction = TransactionDirection.outgoing;
  status = TransactionStatus.new;
  amount = r.amount;
  metainfo = r.metainfo;
  fee = r.fee;
  fee_type = fee_type;
  cold_storage = to_cold_storage;
  fresh = true;
  reported_confirmations = negsuc 0;
}

abbrev pub bind_outcome : {A B : Type 0} → Outcome A → (A → Outcome B) → Outcome B
bind_outcome (ok a) f = f a
bind_outcome (err e) f = err e
bind_outcome (panic p) f = panic p

abbrev pub limits_unless_cold : Settings → Bool → WithdrawRequest → FeeType → Outcome Bool
unfolding check_withdraw_limits
limits_unless_cold s true r fee_type = ok false
limits_unless_cold s false r fee_type = check_withdraw_limits s r fee_type

-- `Withdraw` behind the fee type, up to its last line: the transaction to send and whether to hold
-- it. The arguments behind the settings are the hot and the cold wallet address.
unfoldable pub prepare_with_fee_type :
    Settings → String → String → WithdrawRequest → Bool → FeeType → Outcome (Transaction × Bool)
unfolding check_withdraw_limits
prepare_with_fee_type s hot cold r to_cold_storage fee_type =
    bind_outcome (limits_unless_cold s to_cold_storage r fee_type) λ need.
      bind_outcome (withdraw_address to_cold_storage cold r.address) λ address.
        if str_eq address hot
        then err Monad.to_hot_wallet
        else ok (outgoing_tx r to_cold_storage fee_type address, not to_cold_storage && need)

unfoldable pub prepare_withdraw :
    Settings → String → String → WithdrawRequest → Bool → Outcome (Transaction × Bool)
unfolding fee_type_from_string prepare_with_fee_type
prepare_withdraw s hot cold r to_cold_storage = elim (fee_type_from_string r.fee_type).1 [
  | some text ↦ err (Monad.bad_fee_type text)
  | none ↦ prepare_with_fee_type s hot cold r to_cold_storage (fee_type_from_string r.fee_type).0
]

-- The errors that say that there is no such transaction.
abbrev pub says_no_tx : Error → Bool
says_no_tx Monad.no_rows = true
says_no_tx (Monad.no_tx_with_such_id _) = true
says_no_tx _ = false

abbrev pub free_or_error : ℕ → Outcome Transaction → Outcome (Unit {0})
free_or_error id (ok _) = err (Monad.tx_exists id)
free_or_error id (err e) = if says_no_tx e then ok tt else err e
free_or_error id (panic p) = panic p

module _ {Db Node : Type 0} (b : Backend Db Node) where
  unfoldable pub ensure_tx_id_is_free : ℕ → M (World Db Node) (Unit {0})
  ensure_tx_id_is_free id w =
      let (r, w') = on_db (b.storage.get_transaction_by_id id) w in (free_or_error id r, w')

  -- `withdraw`, in the wallet updater
  unfoldable pub withdraw_tx : Bool → M (World Db Node) (Unit {0})
  withdraw_tx hold = do
    tx ← gets (λ w. w.tx)
    ensure_tx_id_is_free tx.id
    if hold then hold_withdrawal_until_confirmed b else send_withdrawal b true

  -- `Withdraw`, which waits for the updater's answer
  unfoldable pub withdraw : WithdrawRequest → Bool → M (World Db Node) (Unit {0})
  withdraw r to_cold_storage = do
    hot ← gets (λ w. w.hot_wallet_address)
    cold ← gets (λ w. w.cold_wallet_address)
    p ← lift (prepare_withdraw b.settings hot cold r to_cold_storage)
    with_tx p.0 (withdraw_tx p.1)
