-- ===== src/Wallet/Tests/Double.antt =====
-- Stand-ins for the database and the node, small enough to evaluate, for the tests and witnesses.
use bitcoin_processing.Base.{
  ℕ, zero, suc, ◌+◌, ◌-◌, ◌==◌, leb, String, str_eq, Bool, true, false, not, List, [], ◌∷◌, ◌++◌,
  Option, none, some, length, keep, if◌then◌else◌, refl,
}
use bitcoin_processing.Base.Int.{pos, negsuc, ltb_ℤ, ◌+ℤ◌, ◌-ℤ◌, to_uint64, to_int64, add64, sub64}
use bitcoin_processing.Bitcoin.Fee.{FeeType}
use bitcoin_processing.Types.Json.{Json}
use bitcoin_processing.Types.Status.{TransactionStatus, status_string, to_coinpayments_like_code}
use bitcoin_processing.Types.Direction.{
  TransactionDirection, direction_string, to_coinpayments_like_type,
}
use bitcoin_processing.Types.Transaction.{Transaction}
use bitcoin_processing.Events.Types.{Notification, Account}
use bitcoin_processing.Monad.{no_rows, external, rpc_error, Outcome, ok, err, M}
use bitcoin_processing.Storage.{Sql, make_transact_if_available}
use bitcoin_processing.Wallet.Interfaces.{
  Storage, NodeApi, Backend, World, transact, schedule_pending_tx_update,
}
use bitcoin_processing.Wallet.Laws.{EventLaws, event}
use bitcoin_processing.Wallet.Pending.Money.{MoneyLaws}
use bitcoin_processing.Wallet.Notify.{
  get_transaction_notification_type, status_by_confirmations, notification_at, tx_notification,
  notify_tx, notify_round, notify_rounds, notify_transaction,
}
use bitcoin_processing.Wallet.Send.{
  persist_withdraw_result_with_retry, update_pending_tx_status, internal_transfer,
  internal_withdraw_between_our_accounts, store_sent, handle_withdrawal_success, store_failed,
  handle_withdrawal_error, handle_sent, send_money, send_outside, send_withdrawal,
  hold_withdrawal_until_confirmed,
}
use bitcoin_processing.Wallet.Pending.{
  insert_by_amount, sort_by_amount, spend, overdraw, spend_unconfirmed, require_money,
  settle_unfunded, try_to_update_pending_txns, update_pending_txns, cancel_stored,
  cancel_pending_tx, confirm_pending_tx,
}
use bitcoin_processing.Wallet.Withdraw.{
  ensure_tx_id_is_free, withdraw_tx, withdraw, prepare_with_fee_type, prepare_withdraw,
  check_withdraw_limits,
}
use bitcoin_processing.Wallet.Updates.{
  get_account_metainfo, set_metainfo, notify_unless_internal, update_tx_info, update_new,
  process_new_transactions, follow_up, after_updates, update_from_node, check_for_new_transactions,
  update_existing_one, update_existing, process_existing_transactions,
  check_for_existing_transaction_updates, check_for_wallet_updates,
}

-- `failing_unlocks` is how many calls of ClearWallet fail from now on.
pub record Db : Type 0 where
  pub txs : List Transaction
  pub log : List Notification
  pub money : ℕ
  pub accounts : List Account
  pub last_block : String
  pub hot : String
  pub locked : Bool
  pub failing_unlocks : ℕ

pub record Node : Type 0 where
  pub confirmed : ℕ
  pub unconfirmed : ℕ
  pub sent : List (String × ℕ)

abbrev pub find_id : ℕ → List Transaction → Outcome Transaction
find_id id [] = err no_rows
find_id id (t ∷ ts) = if t.id == id then ok t else find_id id ts

abbrev pub replace : Transaction → List Transaction → List Transaction
replace t [] = t ∷ []
replace t (u ∷ us) = if u.id == t.id then t ∷ us else u ∷ replace t us

abbrev pub find_account : String → List Account → Option Account
find_account s [] = none
find_account s (a ∷ r) = if str_eq a.address s then some a else find_account s r

abbrev pub is_waiting : Transaction → Bool
is_waiting t = elim t.status [
  | TransactionStatus.pending ↦ true
  | TransactionStatus.pending_cold_storage ↦ true
  | _ ↦ false
]

abbrev pub with_id : Transaction → Db → Transaction
with_id t d = if t.id == 0 then record t { id = length d.txs + 1000 } else t

abbrev pub unlock : M Db (Unit {0})
unlock d = elim d.failing_unlocks [
  | zero ↦ (ok tt, record d { locked = false })
  | suc n ↦ (err (external "unlock failed"), record d { failing_unlocks = n })
]

abbrev pub storage : Storage Db
storage = record {
  get_last_seen_block_hash = λ d. (ok d.last_block, d);
  set_last_seen_block_hash = λ h d. (ok tt, record d { last_block = h });
  store_transaction =
      λ t d. (ok (with_id t d, with_id t d), record d { txs = replace (with_id t d) d.txs });
  get_transaction_by_id = λ id d. (find_id id d.txs, d);
  get_broadcasted_transactions_with_less_confirmations = λ n d.
      (ok (keep (λ t. ltb_ℤ t.confirmations n) (keep (λ t. not (str_eq t.hash "")) d.txs)), d);
  get_pending_transactions = λ d. (ok (keep is_waiting d.txs), d);
  update_reported_confirmations =
      λ t i d. (ok tt, record d { txs = replace (record t { reported_confirmations = i }) d.txs });
  get_transactions_with_filter =
      λ dir s d. (ok (keep (λ t. str_eq (status_string t.status) s) d.txs), d);
  get_account_by_address = λ s d. (ok (find_account s d.accounts), d);
  store_account = λ a d. (ok tt, record d { accounts = a ∷ d.accounts });
  get_hot_wallet_address = λ d. (ok d.hot, d);
  set_hot_wallet_address = λ s d. (ok tt, record d { hot = s });
  get_money_required_from_cold_storage = λ d. (ok d.money, d);
  set_money_required_from_cold_storage = λ n d. (ok tt, record d { money = n });
  lock_wallet = λ t d. (ok tt, record d { locked = true });
  clear_wallet = unlock;
  check_wallet_lock = λ d. (ok (not d.locked, ""), d);
}

-- A rollback restores all but how often the failure was met.
abbrev pub sql : Sql Db
sql = record {
  available = true;
  begin = λ d. (ok tt, d);
  commit = λ d. (ok tt, d);
  roll_back = λ before now. record before { failing_unlocks = now.failing_unlocks };
}

abbrev pub send : String → ℕ → ℕ → Bool → M Node String
send address amount fee recipient n =
    if leb amount n.confirmed
    then (
      ok "txhash",
      record n { confirmed = n.confirmed - amount; sent = n.sent ++ (address, amount) ∷ [] },
    )
    else (err (rpc_error "Insufficient funds"), n)

abbrev pub node_api : NodeApi Node
node_api = record {
  create_new_address = λ n. (ok "address", n);
  list_transactions_since_block = λ h n. (ok ([], h), n);
  get_transaction =
      λ h n. (ok (record { tx_id = h; block_hash = "block"; confirmations = pos 1 }), n);
  send_with_per_kb_fee = send;
  send_with_fixed_fee = send;
  is_mine = λ s n. (ok (str_eq s "hot"), n);
  get_confirmed_and_unconfirmed_balance = λ n. (ok (n.confirmed, n.unconfirmed), n);
}

abbrev pub backend : Backend Db Node
backend = record {
  storage = storage;
  sql = sql;
  notify = λ et p d. (ok tt, record d { log = d.log ++ event et p ∷ [] });
  node_api = node_api;
  settings = record {
    min_withdraw = 10;
    min_fee_per_kb = 1;
    min_fee_fixed = 1;
    min_withdraw_without_manual_confirmation = 100;
    max_confirmations = pos 6;
    hot_wallet_address_setting = "hot";
    cold_wallet_address_setting = "";
  };
}

abbrev pub tx : Transaction
tx = record {
  id = 7;
  hash = "";
  block_hash = "";
  confirmations = pos 0;
  address = "somebody";
  direction = TransactionDirection.outgoing;
  status = TransactionStatus.new;
  amount = 50;
  metainfo = Json.null;
  fee = 1;
  fee_type = FeeType.fixed;
  cold_storage = false;
  fresh = true;
  reported_confirmations = negsuc 0;
}

abbrev pub empty_db : Db
empty_db = record {
  txs = [];
  log = [];
  money = 0;
  accounts = [];
  last_block = "";
  hot = "hot";
  locked = false;
  failing_unlocks = 0;
}

abbrev pub world : World Db Node
world = record {
  db = empty_db;
  node = record { confirmed = 60; unconfirmed = 20; sent = [] };
  tx = tx;
  hot_wallet_address = "hot";
  cold_wallet_address = "";
  waiting_manual_confirmation = pos 0;
  waiting_blockchain_confirmation = pos 0;
  triggers = 0;
  retries_scheduled = 0;
  notifications_sent = 0;
}

abbrev pub money_laws : MoneyLaws backend
money_laws = record { money = λ d. d.money; set_money_ok = λ n d h. refl; commit_money = λ d. refl }

abbrev pub event_laws : EventLaws backend
event_laws = record { log = λ d. d.log; notify_ok = λ et p d h. refl; report_log = λ t i d. refl }

-- Unfolding this name lets a test evaluate the wallet.
unfoldable pub evaluation : Unit {0}
unfolding make_transact_if_available transact schedule_pending_tx_update ◌+ℤ◌ ◌-ℤ◌ to_uint64
    to_int64 add64 sub64 get_transaction_notification_type status_by_confirmations notification_at
    tx_notification notify_tx notify_round notify_rounds notify_transaction status_string
    direction_string to_coinpayments_like_code to_coinpayments_like_type
    persist_withdraw_result_with_retry update_pending_tx_status internal_transfer
    internal_withdraw_between_our_accounts store_sent handle_withdrawal_success store_failed
    handle_withdrawal_error handle_sent send_money send_outside send_withdrawal
    hold_withdrawal_until_confirmed insert_by_amount sort_by_amount spend overdraw spend_unconfirmed
    require_money settle_unfunded try_to_update_pending_txns update_pending_txns cancel_stored
    cancel_pending_tx confirm_pending_tx ensure_tx_id_is_free withdraw_tx withdraw
    prepare_with_fee_type prepare_withdraw check_withdraw_limits get_account_metainfo set_metainfo
    notify_unless_internal update_tx_info update_new process_new_transactions follow_up
    after_updates update_from_node check_for_new_transactions update_existing_one update_existing
    process_existing_transactions check_for_existing_transaction_updates check_for_wallet_updates
evaluation = tt
