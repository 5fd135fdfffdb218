-- ===== src/Wallet/Pending/Requests.antt =====
-- Which pending withdrawals can be cancelled or confirmed, and what the gauge shows then.
use bitcoin_processing.Base.{ℕ, true, ◌≡◌, refl, ap, ◌∙◌, arith, inl, inr, Bool-cases}
use bitcoin_processing.Base.Int.{ℤ, pos, ◌-ℤ◌}
use bitcoin_processing.Types.Status.{TransactionStatus}
use bitcoin_processing.Types.Transaction.{Transaction}
use bitcoin_processing.Monad.{ok, ◌>>=◌, ◌>>◌}
use bitcoin_processing.Monad.Inversion.{>>=-result, >>=-of_ok}
use bitcoin_processing.Storage.Outcomes.{transact-result}
use bitcoin_processing.Wallet.Interfaces.{
  Backend, World, on_db, wallet_sql, transact, send_notifications,
}
use bitcoin_processing.Wallet.Pending.{
  is_pending, cancel_if_pending, cancel_stored, confirmed_or_cancelled_one, update_pending_txns,
  cancel_pending_tx, confirm_if_held, confirm_pending_tx,
}
use bitcoin_processing.Wallet.Frame.{Keeps, Keeps->>, Apart}
use bitcoin_processing.Wallet.Frame.Paying.{
  ApartFromMessages, Keeps-send_notifications, Keeps-update_pending_txns, Keeps-cancel_stored,
}

abbrev gauge : {Db Node : Type 0} → World Db Node → ℤ
gauge w = w.waiting_manual_confirmation

module _ {Db Node : Type 0} (b : Backend Db Node) where
  abbrev gauge_apart : Apart {Db = Db} {Node = Node} gauge
  gauge_apart = record { apart_db = λ w d. refl; apart_tx = λ w t. refl }

  abbrev gauge_messages : ApartFromMessages {Db = Db} {Node = Node} gauge
  gauge_messages = record {
    apart_node = λ w n. refl;
    apart_triggers = λ w n. refl;
    apart_retries = λ w n. refl;
    apart_sent = λ w n. refl;
  }

  was_pending :
      (t : Transaction) (w : World Db Node)
      → (cancel_if_pending b t w).0 ≡ ok tt
      → is_pending t.status ≡ true
  was_pending t w h = elim (Bool-cases (is_pending t.status)) [ inl e ↦ e | inr e ↦ cc (rw e at h) ]

  found_pending :
      (id : ℕ) (w : World Db Node)
      → (cancel_stored b id w).0 ≡ ok tt
      → (d : Db) × (t : Transaction) × ((b.storage.get_transaction_by_id id d).0 ≡ ok t)
        × (is_pending t.status ≡ true)
  unfolding cancel_stored transact
  found_pending id w h =
      let look = on_db (b.storage.get_transaction_by_id id) in
      let (v, r, _) = transact-result (wallet_sql b) (look >>= cancel_if_pending b) w h in
      let (t, found, k) = >>=-result look (cancel_if_pending b) v r in
      (v.db, t, found, was_pending t (look v).1 k)

  Keeps-rest : Keeps {S = World Db Node} gauge (update_pending_txns b >> send_notifications)
  Keeps-rest =
      Keeps->> gauge (update_pending_txns b) send_notifications
        (Keeps-update_pending_txns b gauge gauge_apart gauge_messages)
        (Keeps-send_notifications b gauge gauge_apart gauge_messages)

  -- Where a cancellation succeeds, the storage gave a transaction with this id whose status is one
  -- of the three pending ones. The gauge of the withdrawals that wait for a manual confirmation
  -- goes down by one, whichever of the three it was.
  pub cancel_pending_tx_ok :
      (id : ℕ) (w : World Db Node)
      → (cancel_pending_tx b id w).0 ≡ ok tt
      → ((d : Db) × (t : Transaction) × ((b.storage.get_transaction_by_id id d).0 ≡ ok t)
          × (is_pending t.status ≡ true))
        × (gauge (cancel_pending_tx b id w).1 ≡ gauge w -ℤ pos 1)
  unfolding cancel_pending_tx
  cancel_pending_tx_ok id w h =
      let tail = λ (x : Unit {0}).
        confirmed_or_cancelled_one b >> (update_pending_txns b >> send_notifications) in
      let (x, r, k) = >>=-result (cancel_stored b id) tail w h in
      let v = (cancel_stored b id w).1 in
      let v1 = record v { waiting_manual_confirmation = gauge v -ℤ pos 1 } in
      let same : cancel_pending_tx b id w ≡ tail x v = >>=-of_ok (cancel_stored b id) tail w r in
      let kept = (Keeps-cancel_stored b gauge gauge_apart gauge_messages id).kept w in
      (
        found_pending id w r,
        ap (λ y. gauge y.1) same ∙ Keeps-rest.kept v1 ∙ ap (λ i. i -ℤ pos 1) kept,
      )

  was_held :
      (t : Transaction) (w : World Db Node)
      → (confirm_if_held b t w).0 ≡ ok tt
      → t.status ≡ TransactionStatus.pending_manual_confirmation
  was_held t w h = ground arith

  -- Where a confirmation succeeds, the storage gave a transaction with this id that waited for a
  -- manual confirmation.
  pub confirm_pending_tx_ok :
      (id : ℕ) (w : World Db Node)
      → (confirm_pending_tx b id w).0 ≡ ok tt
      → (d : Db) × (t : Transaction) × ((b.storage.get_transaction_by_id id d).0 ≡ ok t)
        × (t.status ≡ TransactionStatus.pending_manual_confirmation)
  unfolding confirm_pending_tx transact
  confirm_pending_tx_ok id w h =
      let look = on_db (b.storage.get_transaction_by_id id) in
      let (t, r, k) = >>=-result (transact b look) (confirm_if_held b) w h in
      let (v, found, _) = transact-result (wallet_sql b) look w r in
      (v.db, t, found, was_held t (transact b look w).1 k)
