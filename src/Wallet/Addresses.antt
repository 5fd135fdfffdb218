-- ===== src/Wallet/Addresses.antt =====
-- wallet/hotwallet.go, wallet/coldwallet.go and wallet/accounts.go: the wallet's own addresses, set
-- up when it starts, and the accounts of its users.
use bitcoin_processing.Base.{String, Bool, true, false, not, str_eq, if◌then◌else◌}
use bitcoin_processing.Types.Json.{Json}
use bitcoin_processing.Events.Types.{EventType, Payload, Account}
use bitcoin_processing.Monad
use bitcoin_processing.Monad.{
  Error, Outcome, ok, err, panic, wrapped, M, fail, throw, gets, catch, pure, modify, skip, ◌>>=◌,
  ◌>>◌,
}
use bitcoin_processing.Wallet.Interfaces.{
  Backend, World, on_db, on_node, send_notifications, transact,
}

abbrev is_not_generated : Error → Bool
is_not_generated Monad.hot_wallet_not_generated = true
is_not_generated _ = false

-- A caller that panics with the error it got.
abbrev must : {S A : Type 0} → M S A → M S A
must m = catch m (λ e. throw (Monad.failed e))

module _ {Db Node : Type 0} (b : Backend Db Node) where
  unfoldable pub generate_new_address : M (World Db Node) String
  generate_new_address = on_node b.node_api.create_new_address

  unfoldable pub generate_hot_wallet_address : M (World Db Node) String
  generate_hot_wallet_address = do
    address ←
        catch generate_new_address (λ e. fail (wrapped "Error generating hot wallet address " e))
    catch (on_db (b.storage.set_hot_wallet_address address))
        (λ e. fail (wrapped "Error storing generated hot wallet address " e))
    pure address

  -- The address of the storage; it panics on an error other than "not generated yet", and on an
  -- empty address that comes with no error.
  abbrev stored_or_generated : Outcome String → M (World Db Node) String
  stored_or_generated (ok address) =
      if not (str_eq address "") then pure address else throw Monad.empty_hot_wallet_address
  stored_or_generated (err e) =
      if is_not_generated e then must generate_hot_wallet_address else throw (Monad.failed e)
  stored_or_generated (panic p) = throw p

  unfoldable pub get_or_create_hot_wallet : M (World Db Node) String
  get_or_create_hot_wallet =
      if not (str_eq b.settings.hot_wallet_address_setting "")
      then pure b.settings.hot_wallet_address_setting
      else (λ w. let (r, w') = on_db b.storage.get_hot_wallet_address w in stored_or_generated r w')

  unfoldable pub check_hot_wallet_address : M (World Db Node) (Unit {0})
  check_hot_wallet_address = do
    address ← gets (λ w. w.hot_wallet_address)
    mine ← must (on_node (b.node_api.is_mine address))
    if mine then skip else throw Monad.not_mine

  unfoldable pub init_hot_wallet : M (World Db Node) (Unit {0})
  init_hot_wallet = do
    address ← get_or_create_hot_wallet
    modify (λ w. record w { hot_wallet_address = address })
    check_hot_wallet_address

  unfoldable pub init_cold_wallet : M (World Db Node) (Unit {0})
  init_cold_wallet = do
    modify (λ w. record w { cold_wallet_address = b.settings.cold_wallet_address_setting })
    if str_eq b.settings.cold_wallet_address_setting ""
        then skip
        else must (on_node (b.node_api.is_mine b.settings.cold_wallet_address_setting)) >>= λ mine.
            if mine then throw Monad.cold_is_mine else skip

  -- `CreateAccount`
  unfoldable pub create_account : Json → M (World Db Node) Account
  create_account metainfo = do
    address ← generate_new_address
    let account : Account = record { address = address; metainfo = metainfo }
    transact b (do
      on_db (b.storage.store_account account)
      on_db (b.notify EventType.new_address (Payload.account_data account)))
    send_notifications
    pure account
