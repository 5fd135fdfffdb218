-- ===== src/Api/Client/Tests.antt =====
-- The theorem on the client at a server whose state counts the withdrawals made, and a JSON that
-- keeps a few values.
use bitcoin_processing.Base.{
  ℕ, suc, ◌≡◌, refl, String, str_eq, false, Option, none, some, List, [], ◌∷◌, ◌++◌, if◌then◌else◌,
}
use bitcoin_processing.Base.Int.{pos}
use bitcoin_processing.Types.Json.{Json}
use bitcoin_processing.Events.Types.{Account}
use bitcoin_processing.Monad
use bitcoin_processing.Monad.{Outcome, ok, err, M, pure}
use bitcoin_processing.Wallet.Withdraw.{WithdrawRequest}
use bitcoin_processing.Api.{Body, Response, Server, Route, route_of}
use bitcoin_processing.Api.Services.{WalletService, BrokerService}
use bitcoin_processing.Api.Client.{ClientRequest, ClientLibraries, url_join, get_balance, withdraw}
use bitcoin_processing.Api.Client.Websocket.{
  Sockets, WebsocketLibraries, new_websocket_client, websocket_scheme, add_socket, close_socket,
  write_messages, interrupt,
}
use bitcoin_processing.Api.Client.Served.{Wire, WireLaws, Kept, exchange}

abbrev request : WithdrawRequest
request = record {
  id = 3;
  address = "address";
  amount = 100;
  fee = 1;
  fee_type = "fixed";
  metainfo = Json.null;
}

abbrev new_account : Account
new_account = record { address = "new"; metainfo = Json.null }

abbrev wallet : WalletService ℕ
wallet = record {
  create_account = λ m. pure new_account;
  trigger_wallet_update = λ n. n;
  withdraw = λ req cold n. (ok request, suc n);
  get_hot_wallet_address = λ n. "hot";
  get_transactions_with_filter = λ d st. pure [];
  get_balance = λ n. (err (Monad.external "no connection"), n);
  get_money_required_from_cold_storage = pure 8;
  cancel_pending_tx = λ id n. (err Monad.not_pending, n);
  confirm_pending_transaction = λ id. pure tt;
}

abbrev event_broker : BrokerService ℕ
event_broker = record {
  get_events_from_seq = λ seq. pure [];
  mute_events_with_tx_id = λ id. pure tt;
}

abbrev server : Server ℕ
server = record {
  wallet = wallet;
  event_broker = event_broker;
  allow_withdrawal_without_id = false;
  decode_metainfo = λ b. ok Json.null;
  decode_withdraw = λ b. ok request;
  decode_filter = λ b. ok (record { direction = ""; status = "" });
  decode_id = λ b. ok 4;
  decode_seq = λ b. ok (pos 2);
  generate = pure 5;
  write = λ r. ok tt;
}

abbrev written : Response → String
written (Response.failure e) = "failure"
written (Response.success b) = "success"

abbrev wire : Wire
wire = record {
  json = λ r. "json";
  raw = λ b. "result";
  encode = written;
  error_text = λ e. "error";
  keeps_request = λ r. elim r [
    | ClientRequest.transaction_id i ↦ i ≡ 4
    | ClientRequest.with_metainfo m ↦ m ≡ Json.null
    | ClientRequest.withdraw_money req ↦ req ≡ request
    | _ ↦ ⊥
  ];
  keeps_body = λ b. elim b [
    | Body.account a ↦ a ≡ new_account
    | Body.withdrawal r ↦ r ≡ request
    | Body.address a ↦ a ≡ "hot"
    | Body.amount n ↦ n ≡ 8
    | _ ↦ ⊥
  ];
}

-- What arrives at a URL: the path of it.
abbrev post : Option Route → String → M ℕ String
post none body = λ n. (ok "404 page not found", n)
post (some route) body = exchange server written route body

abbrev read_result : {A : Type 0} → A → A → String → Outcome A
read_result empty kept json = if str_eq json "null" then ok empty else ok kept

abbrev no_account : Account
no_account = record { address = ""; metainfo = Json.null }

abbrev no_withdrawal : WithdrawRequest
no_withdrawal = record {
  id = 0;
  address = "";
  amount = 0;
  fee = 0;
  fee_type = "";
  metainfo = Json.null;
}

abbrev libraries : ClientLibraries ℕ String
libraries = record {
  urls = record { parse = λ s. ok s; resolve_reference = λ a b. b; url_string = λ s. s };
  marshal = λ r. ok "json";
  post = λ url. post (route_of url);
  decode_response = λ s.
      if str_eq s "failure"
      then ok (record { error = "error"; result = some "null" })
      else ok (record { error = "ok"; result = some "result" });
  unmarshal_account = read_result no_account new_account;
  unmarshal_withdrawal = read_result no_withdrawal request;
  unmarshal_string = read_result "" "hot";
  unmarshal_transactions = λ s. ok [];
  unmarshal_balance = λ s. ok (0, 0);
  unmarshal_amount = λ json. if str_eq json "null" then err (Monad.external "no number") else ok 8;
  unmarshal_events = λ s. ok [];
  no_account = no_account;
  no_withdrawal = no_withdrawal;
}

reaches :
    (path body : String) (route : Route) (n : ℕ)
    → route_of path ≡ some route
    → post (route_of path) body n ≡ exchange server written route body n
reaches path body route n h = rw h refl

kept_only : {A : Type 0} (y x : A) → x ≡ y → ok y ≡ ok x
kept_only y x h = rw h refl

url_joined : (path : String) → url_join libraries.urls "" path ≡ ok path
unfolding url_join
url_joined path = refl

laws : WireLaws libraries "" server wire
laws = record {
  full_url = λ path. path;
  joined = url_joined;
  reached = reaches;
  marshaled = λ r. refl;
  json_not_empty = λ m. refl;
  id_read = kept_only 4;
  metainfo_read = kept_only Json.null;
  withdraw_read = kept_only request;
  written = λ r. refl;
  success_read = λ b. refl;
  failure_read = λ e. refl;
  text-ne-ok = λ e. refl;
  no_account_read = refl;
  no_withdrawal_read = refl;
  no_string_read = refl;
  no_balance_read = refl;
  no_amount = Monad.external "no number";
  no_amount_read = refl;
  account_read = kept_only new_account;
  withdrawal_read = kept_only request;
  string_read = kept_only "hot";
  balance_read = λ a b h. absurd h;
  amount_read = kept_only 8;
}

kept : Kept libraries "" server wire laws 0 4 Json.null request
kept = record {
  kept_id = refl;
  kept_metainfo = refl;
  kept_withdrawal = refl;
  kept_account = refl;
  kept_address = refl;
  kept_balance = tt;
  kept_required = refl;
  kept_regular = refl;
  kept_cold = refl;
}

-- The websocket client: two clients of which the first is closed twice.
abbrev nobody : Sockets
nobody = record { next = 0; websocket_clients = []; owned = λ w. false; interrupted = λ w. false }

abbrev sockets : WebsocketLibraries (List String) String (String × String)
sockets = record {
  parse = λ s. if str_eq s "" then err (Monad.external "no URL") else ok ("https", s);
  scheme = λ u. u.0;
  set_scheme = λ x u. (x, u.1);
  set_path = λ x u. (u.0, x);
  url_string = λ u. u.0;
  dial = λ url log. (ok url, log ++ url ∷ []);
  write_subscribe = λ seq c log. (err (Monad.external "broken"), log ++ "subscribe" ∷ []);
  write_close = λ c log. (ok tt, log ++ "goodbye" ∷ []);
  close = λ c log. (ok tt, log ++ "close" ∷ []);
}

wss_dialed : (new_websocket_client sockets "host" ([], nobody)).1.0 ≡ "wss" ∷ []
unfolding new_websocket_client websocket_scheme
wss_dialed = refl

abbrev two_clients : Sockets
unfolding add_socket
two_clients = (add_socket (add_socket nobody).1).1

closed_twice : (close_socket 0 (close_socket 0 two_clients)).websocket_clients ≡ 1 ∷ []
unfolding close_socket add_socket
closed_twice = refl

-- A subscription that cannot be written is only logged.
subscription_lost :
    write_messages sockets (pos 3) "connection" interrupt []
    ≡ (ok tt, "subscribe" ∷ "goodbye" ∷ "close" ∷ [])
unfolding write_messages
subscription_lost = refl
