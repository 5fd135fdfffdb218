-- ===== src/Wallet/Loop.antt =====
-- The wallet updater: `Run` of wallet/wallet.go and `mainLoop` of wallet/updates.go. The channels
-- are the list of what the loop receives; a panic, which the deferred function turns into the
-- error that the loop returns, ends it.
pub mod Addresses
use bitcoin_processing.Base.{ℕ, Bool, true, false, List, [], ◌∷◌, Option, none, some, if◌then◌else◌}
use bitcoin_processing.Types.Transaction.{Transaction}
use bitcoin_processing.Monad.{Error, M, catch, pure, ◌>>=◌, ◌>>◌}
use bitcoin_processing.Wallet.Interfaces.{Backend, World, with_tx}
use bitcoin_processing.Wallet.Pending.{update_pending_txns, cancel_pending_tx, confirm_pending_tx}
use bitcoin_processing.Wallet.Updates.{check_for_wallet_updates}
use bitcoin_processing.Wallet.Withdraw.{withdraw_tx}
use bitcoin_processing.Wallet.Addresses.{init_hot_wallet, init_cold_wallet}
use bitcoin_processing.Wallet.Info.{init_pending_manual_confirmations_tx_metric}

-- What `select` receives. `wake` is the ticker or an external notification.
pub data Request : Type 0 where
  wake : Request
  withdraw_request : Transaction → Bool → Request
  cancel_request : ℕ → Request
  confirm_request : ℕ → Request
  pending_tx_update : Request
  stop : Request

-- A request, and whether the stop trigger has fired by each of the two checks that follow it.
pub record Turn : Type 0 where
  pub request : Request
  pub stopped_before_updates : Bool
  pub stopped_after_updates : Bool

abbrev pub is_stop : Request → Bool
is_stop stop = true
is_stop _ = false

-- The answer that goes back on a request's result channel.
abbrev answer : {S : Type 0} → M S (Unit {0}) → M S (Option Error)
answer m = catch (m >>= λ _. pure none) (λ e. pure (some e))

module _ {Db Node : Type 0} (b : Backend Db Node) where
  unfoldable pub serve : Request → M (World Db Node) (Option Error)
  serve wake = pure none
  serve (withdraw_request tx hold) = answer (with_tx tx (withdraw_tx b hold))
  serve (cancel_request id) = answer (cancel_pending_tx b id)
  serve (confirm_request id) = answer (confirm_pending_tx b id)
  serve pending_tx_update = update_pending_txns b >>= λ _. pure none
  serve stop = pure none

  -- What follows the updates, the answer to a request, and a round of the loop.
  abbrev pub after_wallet_updates :
      Turn
      → M (World Db Node) (List (Option Error))
      → Option Error
      → M (World Db Node) (List (Option Error))
  after_wallet_updates t continue reply =
      if t.stopped_after_updates
      then pure (reply ∷ [])
      else (do replies ← continue; pure (reply ∷ replies))

  abbrev pub after_reply :
      Turn
      → M (World Db Node) (List (Option Error))
      → Option Error
      → M (World Db Node) (List (Option Error))
  after_reply t continue reply =
      if t.stopped_before_updates
      then pure (reply ∷ [])
      else (do check_for_wallet_updates b; after_wallet_updates t continue reply)

  unfoldable pub one_turn :
      Turn → M (World Db Node) (List (Option Error)) → M (World Db Node) (List (Option Error))
  one_turn t continue =
      if is_stop t.request
      then pure []
      else (do reply ← serve t.request; after_reply t continue reply)

  -- The answers to the requests, in order.
  unfoldable pub main_loop : List Turn → M (World Db Node) (List (Option Error))
  main_loop [] = pure []
  main_loop (t ∷ ts) = one_turn t (main_loop ts)

  -- `Run`, after the metrics are registered.
  unfoldable pub run : List Turn → M (World Db Node) (List (Option Error))
  run ts = do
    init_pending_manual_confirmations_tx_metric b
    init_hot_wallet b
    init_cold_wallet b
    check_for_wallet_updates b
    update_pending_txns b
    main_loop ts
