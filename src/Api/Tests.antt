-- ===== src/Api/Tests.antt =====
-- The theorems on the API at a server whose state counts the withdrawals made.
use bitcoin_processing.Base.{
  ℕ, suc, ◌≡◌, refl, Bool, true, false, List, [], ◌∷◌, ◌++◌, length, arith,
}
use bitcoin_processing.Base.Int.{pos}
use bitcoin_processing.Types.Json.{Json}
use bitcoin_processing.Events.Types.{EventType, Payload, NotificationWithSeq}
use bitcoin_processing.Monad
use bitcoin_processing.Monad.{Outcome, ok, err, pure}
use bitcoin_processing.Wallet.Withdraw.{WithdrawRequest}
use bitcoin_processing.Api.{Response, Server, Exchange, Route, serve, withdraw}
use bitcoin_processing.Api.Services.{WalletService, BrokerService}
use bitcoin_processing.Api.Answers.{EndsOnce, serve_once}
use bitcoin_processing.Api.Requests.{Passed, withdraw-Passed}
use bitcoin_processing.Api.Websocket.{
  Connection, Received, event_sequence, queue_closed, offered, handle_websocket_connection,
  handle_websocket_connection_sends,
}

abbrev request : WithdrawRequest
request = record {
  id = 0;
  address = "address";
  amount = 100;
  fee = 1;
  fee_type = "";
  metainfo = Json.null;
}

abbrev wallet : WalletService ℕ
wallet = record {
  create_account = λ m. pure (record { address = "new"; metainfo = m });
  trigger_wallet_update = λ n. n;
  withdraw = λ req cold n. (ok req, suc n);
  get_hot_wallet_address = λ n. "hot";
  get_transactions_with_filter = λ d st. pure [];
  get_balance = λ n. (err (Monad.external "no connection"), n);
  get_money_required_from_cold_storage = pure 0;
  cancel_pending_tx = λ id. pure tt;
  confirm_pending_transaction = λ id. pure tt;
}

abbrev event_broker : BrokerService ℕ
event_broker = record {
  get_events_from_seq = λ seq. pure [];
  mute_events_with_tx_id = λ id. pure tt;
}

abbrev server : Bool → Server ℕ
server allowed = record {
  wallet = wallet;
  event_broker = event_broker;
  allow_withdrawal_without_id = allowed;
  decode_metainfo = λ b. ok Json.null;
  decode_withdraw = λ b. ok request;
  decode_filter = λ b. ok (record { direction = ""; status = "" });
  decode_id = λ b. ok 4;
  decode_seq = λ b. ok (pos 2);
  generate = pure 5;
  write = λ r. ok tt;
}

abbrev exchange : Exchange ℕ
exchange = record { app = 0; responses = [] }

-- A request without an identifier or a fee type is completed, and one withdrawal is made.
completed : withdraw (server true) false (ok "{}") exchange ≡ (
  ok tt,
  record {
    app = 1;
    responses =
        Response.success
          (bitcoin_processing.Api.withdrawal (record request { id = 5; fee_type = "fixed" }))
        ∷ [];
  },
)
unfolding withdraw bitcoin_processing.Api.respond
completed = refl

serve_once_example : EndsOnce exchange (serve (server true) Route.balance (ok "") exchange)
serve_once_example = serve_once (server true) Route.balance (ok "") exchange

withdraw-Passed_example :
    Passed (server true) false 0 (withdraw (server true) false (ok "{}") exchange).1.app
withdraw-Passed_example = withdraw-Passed (server true) false (ok "{}") exchange (λ h. omega arith)

abbrev event : ℕ → NotificationWithSeq
event n = record {
  notification = record {
    event_type = EventType.new_address;
    payload = Payload.account_data (record { address = "address"; metainfo = Json.null });
  };
  seq = pos n;
}

-- The third event cannot be written.
abbrev connection : Connection
connection = record {
  upgrade = ok tt;
  read_seq = ok (pos 1);
  write = λ written e. elim written [ _ ∷ _ ∷ _ ↦ false | _ ↦ true ];
}

abbrev received : List Received
received =
    event_sequence (event 1 ∷ []) ∷ event_sequence (event 2 ∷ event 3 ∷ []) ∷ queue_closed ∷ []

handle_websocket_connection_sends_example :
    ((rest : List NotificationWithSeq) × (offered received
        ≡ (handle_websocket_connection connection received).written ++ rest))
    × ((handle_websocket_connection connection received).unsubscribed
        ≡ length (handle_websocket_connection connection received).subscribed)
    × ((handle_websocket_connection connection received).closed ≡ 1)
handle_websocket_connection_sends_example = handle_websocket_connection_sends connection received
