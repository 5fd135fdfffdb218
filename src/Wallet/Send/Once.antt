-- ===== src/Wallet/Send/Once.antt =====
-- How often sendWithdrawal asks the node to send money.
use bitcoin_processing.Base.{
  String, Bool, Option, none, some, ◌≡◌, ◌⊎◌, inl, inr, refl, ap, ◌∙◌, arith, Bool-cases,
}
use bitcoin_processing.Bitcoin.Fee.{FeeType, same_fee_type}
use bitcoin_processing.Types.Transaction.{Transaction}
use bitcoin_processing.Events.Types.{Account}
use bitcoin_processing.Monad.{Error, ok, ◌>>=◌}
use bitcoin_processing.Wallet.Interfaces.{
  Backend, World, on_db, transact, send_notifications, schedule_pending_tx_update,
}
use bitcoin_processing.Wallet.Send.{
  internal_withdraw_between_our_accounts, send_request, send_money, ask_node, finish_sending,
  by_our_account, handle_sent, send_outside, send_withdrawal,
}
use bitcoin_processing.Wallet.Frame.{
  Keeps, Apart, Keeps-on_db, Keeps-transact, frame_rules, >>=-cases, after_first,
}
use bitcoin_processing.Wallet.Frame.Sending.{
  Keeps-internal_transfer, Keeps-handle_withdrawal_success, Keeps-handle_withdrawal_error,
}

abbrev node_of : {Db Node : Type 0} → World Db Node → Node
node_of w = w.node

module _ {Db Node : Type 0} (b : Backend Db Node) where
  abbrev node_apart : Apart {Db = Db} {Node = Node} node_of
  node_apart = record { apart_db = λ w d. refl; apart_tx = λ w t. refl }

  Keeps-schedule : Keeps {S = World Db Node} node_of schedule_pending_tx_update
  unfolding schedule_pending_tx_update
  Keeps-schedule = record { kept = λ w. refl }

  Keeps-send_notifications : Keeps {S = World Db Node} node_of send_notifications
  Keeps-send_notifications = record { kept = λ w. refl }

  -- A transfer between accounts of the wallet does not reach the node.
  pub Keeps-internal :
      (account : Account) → Keeps node_of (internal_withdraw_between_our_accounts b account)
  unfolding internal_withdraw_between_our_accounts
  Keeps-internal account =
      search (frame_rules, node_apart, Keeps-internal_transfer, Keeps-schedule) depth 20

  Keeps-handle_sent : (sent : String ⊎ Error) → Keeps node_of (handle_sent b sent)
  unfolding handle_sent
  Keeps-handle_sent (inl h) = Keeps-handle_withdrawal_success b node_of node_apart h
  Keeps-handle_sent (inr e) = Keeps-handle_withdrawal_error b node_of node_apart e

  Keeps-finish : (u : Bool) (sent : String ⊎ Error) → Keeps node_of (finish_sending b u sent)
  Keeps-finish u sent =
      search (frame_rules, Keeps-handle_sent, Keeps-send_notifications, Keeps-schedule) depth 20

  asked :
      (t : Transaction) (w : World Db Node) → (ask_node b t w).1.node ≡ (send_request b t w.node).1
  unfolding send_money
  asked t w = ground arith

  -- sendWithdrawal to an address outside asks the node for one transfer at most.
  outside :
      (u : Bool) (w : World Db Node)
      → ((send_outside b u w).1.node ≡ w.node)
        ⊎ ((send_outside b u w).1.node ≡ (send_request b w.tx w.node).1)
  unfolding send_outside
  outside u w = elim (Bool-cases (same_fee_type w.tx.fee_type FeeType.invalid)) [
    | inl e ↦ inl (ground arith)
    | inr e ↦
        let lock = transact b (on_db (b.storage.lock_wallet w.tx)) in
        let rest = λ (x : Unit {0}). ask_node b w.tx >>= finish_sending b u in
        let same_node =
          (Keeps-transact b node_of node_apart (on_db (b.storage.lock_wallet w.tx))
              (Keeps-on_db b node_of node_apart (b.storage.lock_wallet w.tx))).kept
            w in
        let opened : send_outside b u w ≡ (lock >>= rest) w = rw (e, send_outside) in
        elim (>>=-cases node_of lock rest w) [
          | inl h ↦ inl (ap (λ r. r.1.node) opened ∙ h ∙ same_node)
          | inr (x, r, s) ↦
              let finished =
                after_first node_of (ask_node b w.tx) (finish_sending b u) (Keeps-finish u)
                  (lock w).1 in
              let request_state = λ (n : Node). (send_request b w.tx n).1 in
              inr (
                ap (λ r. r.1.node) (opened ∙ s)
                ∙ finished
                ∙ asked w.tx (lock w).1
                ∙ ap request_state same_node)
        ]
  ]

  by_account :
      (u : Bool) (o : Option Account) (w : World Db Node)
      → ((by_our_account b u o w).1.node ≡ w.node)
        ⊎ ((o ≡ none) × ((by_our_account b u o w).1.node ≡ (send_request b w.tx w.node).1))
  by_account u none w = elim (outside u w) [ inl h ↦ inl h | inr h ↦ inr (refl, h) ]
  by_account u (some account) w = inl ((Keeps-internal account).kept w)

  -- sendWithdrawal asks the node for a transfer once at most, and only for an address that is no
  -- account's: the state of the node is what it was, or, where the storage finds no account, the
  -- one behind a single request for the address, the amount and the fee of the transaction.
  -- Saving the outcome, however often that is tried again, asks for no other.
  pub send_withdrawal_once :
      (u : Bool) (w : World Db Node)
      → ((send_withdrawal b u w).1.node ≡ w.node)
        ⊎ (((b.storage.get_account_by_address w.tx.address w.db).0 ≡ ok none)
            × ((send_withdrawal b u w).1.node ≡ (send_request b w.tx w.node).1))
  unfolding send_withdrawal
  send_withdrawal_once u w =
      let look = on_db (b.storage.get_account_by_address w.tx.address) in
      elim (>>=-cases node_of look (by_our_account b u) w) [
        | inl h ↦ inl h
        | inr (o, r, s) ↦ elim (by_account u o (look w).1) [
          | inl h ↦ inl (ap (λ x. x.1.node) s ∙ h)
          | inr (e, h) ↦ inr (rw e at r, ap (λ x. x.1.node) s ∙ h)
        ]
      ]
