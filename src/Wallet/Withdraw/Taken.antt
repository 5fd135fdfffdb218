-- ===== src/Wallet/Withdraw/Taken.antt =====
-- Withdrawals under an id that is in use.
use bitcoin_processing.Base.{ℕ, Bool, ◌≡◌, refl, ap, ◌∙◌, arith}
use bitcoin_processing.Types.Transaction.{Transaction}
use bitcoin_processing.Monad
use bitcoin_processing.Monad.{Outcome, ok, err, M, ◌>>=◌}
use bitcoin_processing.Wallet.Interfaces.{Backend, World}
use bitcoin_processing.Wallet.Withdraw.{
  WithdrawRequest, prepare_withdraw, ensure_tx_id_is_free, withdraw_tx, withdraw,
}
use bitcoin_processing.Wallet.Withdraw.Checks.{prepare_withdraw-Accepted}

module _ {Db Node : Type 0} (b : Backend Db Node) where
  taken :
      (hold : Bool) (w : World Db Node) {t : Transaction}
      → (b.storage.get_transaction_by_id w.tx.id w.db).0 ≡ ok t
      → withdraw_tx b hold w ≡ (
        err (Monad.tx_exists w.tx.id),
        record w { db = (b.storage.get_transaction_by_id w.tx.id w.db).1 },
      )
  unfolding withdraw_tx ensure_tx_id_is_free
  taken hold w h = ground arith

  -- A withdrawal that passes the checks, but whose id the storage has a transaction for, fails
  -- with an error that names the id; nothing is sent or stored, and no event is made: the state
  -- changes at most in what the lookup does to the database.
  pub withdraw_taken :
      (r : WithdrawRequest) (c : Bool) (w : World Db Node) (tx : Transaction) (hold : Bool)
      (t : Transaction)
      → prepare_withdraw b.settings w.hot_wallet_address w.cold_wallet_address r c ≡ ok (tx, hold)
      → (b.storage.get_transaction_by_id r.id w.db).0 ≡ ok t
      → withdraw b r c w ≡ (
        err (Monad.tx_exists r.id),
        record w { db = (b.storage.get_transaction_by_id r.id w.db).1 },
      )
  unfolding withdraw
  withdraw_taken r c w tx hold t p h =
      let a =
        prepare_withdraw-Accepted b.settings w.hot_wallet_address w.cold_wallet_address r c tx hold
          p in
      let found : (b.storage.get_transaction_by_id tx.id w.db).0 ≡ ok t = rw a.id_of h in
      let v = record w { tx = tx } in
      let answer : withdraw b r c w ≡ (
        err (Monad.tx_exists tx.id),
        record w { db = (b.storage.get_transaction_by_id tx.id w.db).1 },
      ) =
        rw (p, withdraw, taken hold v found) refl in
      let ending : ℕ → Outcome (Unit {0}) × World Db Node = λ id.
        (err (Monad.tx_exists id), record w { db = (b.storage.get_transaction_by_id id w.db).1 }) in
      answer ∙ ap ending a.id_of
