-- ===== src/Wallet/Frame/Paying.antt =====
-- What paying withdrawals from the balance leaves alone: all but the database, the node and the
-- counters of messages.
use bitcoin_processing.Base.{String, ◌⊎◌, inl, inr, Option, none, some, ℕ, Bool, List, [], ◌∷◌, ◌≡◌}
use bitcoin_processing.Base.Int.{ℤ, to_int64, sub64}
use bitcoin_processing.Types.Transaction.{Transaction}
use bitcoin_processing.Events.Types.{Account}
use bitcoin_processing.Monad.{Error, M, modify}
use bitcoin_processing.Wallet.Interfaces.{
  Backend, World, with_tx, on_node, send_notifications, schedule_pending_tx_update,
}
use bitcoin_processing.Wallet.Send.{
  handle_sent, internal_withdraw_between_our_accounts, send_money, by_our_account, send_outside,
  send_withdrawal,
}
use bitcoin_processing.Wallet.Pending.{
  spend, overdraw, spend_unconfirmed, require_money, settle_unfunded, try_to_update_pending_txns,
  update_pending_txns, cancel_stored, affords,
}
use bitcoin_processing.Wallet.Frame.{
  Keeps, Keeps->>=, Apart, Keeps-with_tx, Keeps-if, Keeps-pure, frame_rules,
}
use bitcoin_processing.Wallet.Frame.Sending.{
  Keeps-internal_transfer, Keeps-handle_withdrawal_success, Keeps-handle_withdrawal_error,
  Keeps-update_pending_tx_status,
}

pub record ApartFromMessages {Db Node X : Type 0} (p : World Db Node → X) : Type 0 where
  pub apart_node : (w : World Db Node) (n : Node) → p (record w { node = n }) ≡ p w
  pub apart_triggers : (w : World Db Node) (n : ℕ) → p (record w { triggers = n }) ≡ p w
  pub apart_retries : (w : World Db Node) (n : ℕ) → p (record w { retries_scheduled = n }) ≡ p w
  pub apart_sent : (w : World Db Node) (n : ℕ) → p (record w { notifications_sent = n }) ≡ p w

module _ {S X : Type 0} (p : S → X) where
  pub Keeps-modify : (f : S → S) → ((w : S) → p (f w) ≡ p w) → Keeps p (modify f)
  Keeps-modify f h = record { kept = h }

module _ {Db Node X : Type 0} (b : Backend Db Node) (p : World Db Node → X) (a : Apart p)
    (m : ApartFromMessages p) where
  pub Keeps-on_node : {A : Type 0} (act : M Node A) → Keeps p (on_node act)
  Keeps-on_node act = record { kept = λ w. m.apart_node w (act w.node).1 }

  pub Keeps-send_notifications : Keeps p send_notifications
  Keeps-send_notifications = record { kept = λ w. m.apart_sent w _ }

  Keeps-schedule : Keeps p schedule_pending_tx_update
  unfolding schedule_pending_tx_update
  Keeps-schedule = record { kept = λ w. m.apart_triggers w _ }

  Keeps-internal_withdraw :
      (account : Account) → Keeps p (internal_withdraw_between_our_accounts b account)
  unfolding internal_withdraw_between_our_accounts
  Keeps-internal_withdraw account =
      search (frame_rules, a, Keeps-internal_transfer, Keeps-schedule) depth 20

  Keeps-send_money : (t : Transaction) → Keeps p (send_money b t)
  unfolding send_money
  Keeps-send_money t = Keeps-on_node _

  Keeps-handle_sent : (sent : String ⊎ Error) → Keeps p (handle_sent b sent)
  unfolding handle_sent
  Keeps-handle_sent (inl h) = Keeps-handle_withdrawal_success b p a h
  Keeps-handle_sent (inr e) = Keeps-handle_withdrawal_error b p a e

  Keeps-send_outside : (u : Bool) → Keeps p (send_outside b u)
  unfolding send_outside
  Keeps-send_outside u =
      search
        (
          frame_rules, a, Keeps-send_money, Keeps-handle_sent, Keeps-send_notifications,
          Keeps-schedule,
        )
        depth 20

  Keeps-by_account : (u : Bool) (our : Option Account) → Keeps p (by_our_account b u our)
  Keeps-by_account u none = Keeps-send_outside u
  Keeps-by_account u (some account) = Keeps-internal_withdraw account

  pub Keeps-send_withdrawal : (u : Bool) → Keeps p (send_withdrawal b u)
  unfolding send_withdrawal
  Keeps-send_withdrawal u = search (frame_rules, a, Keeps-by_account) depth 20

  Keeps-spend :
      (act : M (World Db Node) (Unit {0})) (available : ℤ) (ts : List Transaction)
      → Keeps p act
      → Keeps p (spend act available ts)
  unfolding spend
  Keeps-spend act available [] h = search frame_rules
  Keeps-spend act available (t ∷ ts) h =
      let rest = Keeps-spend act (sub64 available (to_int64 t.amount)) ts h in
      Keeps-if p (affords available t)
        (Keeps->>= p (with_tx t act) (λ _. spend act (sub64 available (to_int64 t.amount)) ts)
          (Keeps-with_tx b p a t act h) (λ _. rest))
        (Keeps-pure p (available, t ∷ ts))

  Keeps-overdraw :
      (act : M (World Db Node) (Unit {0})) (available : ℤ) (ts : List Transaction)
      → Keeps p act
      → Keeps p (overdraw act available ts)
  unfolding overdraw
  Keeps-overdraw act available [] h = search frame_rules
  Keeps-overdraw act available (t ∷ ts) h =
      Keeps->>= p (with_tx t act) (λ _. overdraw act (sub64 available (to_int64 t.amount)) ts)
        (Keeps-with_tx b p a t act h)
        (λ _. Keeps-overdraw act (sub64 available (to_int64 t.amount)) ts h)

  Keeps-spend_unconfirmed :
      (unconf : ℕ) (available : ℤ) (ts : List Transaction)
      → Keeps p (spend_unconfirmed b unconf available ts)
  unfolding spend_unconfirmed
  Keeps-spend_unconfirmed unconf available ts =
      search (frame_rules, a, Keeps-spend, Keeps-update_pending_tx_status) depth 20

  Keeps-require_money :
      (available : ℤ) (ts : List Transaction) → Keeps p (require_money b available ts)
  unfolding require_money
  Keeps-require_money available [] = search (frame_rules, a)
  Keeps-require_money available (t ∷ ts) =
      search (frame_rules, a, Keeps-overdraw, Keeps-update_pending_tx_status) depth 20

  Keeps-settle_unfunded :
      (unconf : ℕ) (available : ℤ) (ts : List Transaction)
      → Keeps p (settle_unfunded b unconf available ts)
  unfolding settle_unfunded
  Keeps-settle_unfunded unconf available [] = search (frame_rules, a)
  Keeps-settle_unfunded unconf available (t ∷ ts) =
      search (frame_rules, a, Keeps-spend_unconfirmed, Keeps-require_money) depth 20

  Keeps-try_to_update_pending_txns : Keeps p (try_to_update_pending_txns b)
  unfolding try_to_update_pending_txns
  Keeps-try_to_update_pending_txns =
      search
        (frame_rules, a, Keeps-on_node, Keeps-spend, Keeps-send_withdrawal, Keeps-settle_unfunded)
        depth 20

  pub Keeps-update_pending_txns : Keeps p (update_pending_txns b)
  unfolding update_pending_txns
  Keeps-update_pending_txns =
      search
        (
          frame_rules, a, Keeps-try_to_update_pending_txns, Keeps-send_notifications, Keeps-modify,
          m.apart_retries,
        )
        depth 20

  pub Keeps-cancel_stored : (id : ℕ) → Keeps p (cancel_stored b id)
  unfolding cancel_stored
  Keeps-cancel_stored id = search (frame_rules, a, Keeps-update_pending_tx_status) depth 20
