-- ===== src/Wallet/Loop/Addresses.antt =====
-- The wallet's own addresses as Run sets them (initHotWallet and initColdWallet).
use bitcoin_processing.Base.{
  Bool-cases, String, ◌≡◌, ◌⊎◌, inl, inr, true, false, arith, str_eq_iff, str_eq,
}
use bitcoin_processing.Monad.{ok, modify, ◌>>◌}
use bitcoin_processing.Monad.Inversion.{>>=-result, >>=-of_ok}
use bitcoin_processing.Wallet.Interfaces.{Backend, World}
use bitcoin_processing.Wallet.Addresses.{
  get_or_create_hot_wallet, check_hot_wallet_address, init_hot_wallet, init_cold_wallet,
}

module _ {Db Node : Type 0} (b : Backend Db Node) where
  checked :
      (w : World Db Node)
      → (check_hot_wallet_address b w).0 ≡ ok tt
      → ((b.node_api.is_mine w.hot_wallet_address w.node).0 ≡ ok true)
        × ((check_hot_wallet_address b w).1.hot_wallet_address ≡ w.hot_wallet_address)
  unfolding check_hot_wallet_address
  checked w h = ground arith

  configured :
      (w : World Db Node) {address : String}
      → (get_or_create_hot_wallet b w).0 ≡ ok address
      → (b.settings.hot_wallet_address_setting ≡ "")
        ⊎ (address ≡ b.settings.hot_wallet_address_setting)
  unfolding get_or_create_hot_wallet
  configured w h = elim (Bool-cases (str_eq b.settings.hot_wallet_address_setting "")) [
    | inl e ↦ inl ((str_eq_iff b.settings.hot_wallet_address_setting "").0 e)
    | inr e ↦ inr (cc (rw (e, get_or_create_hot_wallet) at h))
  ]

  -- Where initHotWallet succeeds, the hot wallet address is the configured one, where there is one,
  -- and the node has just answered that this address is its own.
  pub init_hot_wallet-is_mine :
      (w : World Db Node)
      → (init_hot_wallet b w).0 ≡ ok tt
      → ((b.settings.hot_wallet_address_setting ≡ "")
          ⊎ ((init_hot_wallet b w).1.hot_wallet_address ≡ b.settings.hot_wallet_address_setting))
        × ((n : Node) × ((b.node_api.is_mine (init_hot_wallet b w).1.hot_wallet_address n).0
              ≡ ok true))
  unfolding init_hot_wallet
  init_hot_wallet-is_mine w h =
      let then_check = λ (address : String).
        modify (λ w. record w { hot_wallet_address = address }) >> check_hot_wallet_address b in
      let (address, r, k) = >>=-result (get_or_create_hot_wallet b) then_check w h in
      let v = record (get_or_create_hot_wallet b w).1 { hot_wallet_address = address } in
      let same : init_hot_wallet b w ≡ check_hot_wallet_address b v =
        >>=-of_ok (get_or_create_hot_wallet b) then_check w r in
      let (mine, kept) = checked v k in rw (same, kept) (configured w r, (v.node, mine))

  -- Where initColdWallet succeeds, the cold wallet address is the configured one, and it is empty
  -- or the node has answered that it is not its own.
  pub init_cold_wallet-not_mine :
      (w : World Db Node)
      → (init_cold_wallet b w).0 ≡ ok tt
      → ((init_cold_wallet b w).1.cold_wallet_address ≡ b.settings.cold_wallet_address_setting)
        × ((b.settings.cold_wallet_address_setting ≡ "")
            ⊎ ((b.node_api.is_mine b.settings.cold_wallet_address_setting w.node).0 ≡ ok false))
  unfolding init_cold_wallet
  init_cold_wallet-not_mine w h =
      ground (arith, str_eq_iff b.settings.cold_wallet_address_setting "")
