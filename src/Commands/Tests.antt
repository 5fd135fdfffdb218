-- ===== src/Commands/Tests.antt =====
-- The commands at a terminal and a server whose state is the list of the requests and the lines
-- written, and the end of the process on a few events.
use bitcoin_processing.Base.{
  ℕ, String, str_eq, ◌≡◌, refl, none, some, List, [], ◌∷◌, ◌++◌, if◌then◌else◌, true, false,
}
use bitcoin_processing.Base.Int.{ℤ, pos}
use bitcoin_processing.Types.Json
use bitcoin_processing.Monad
use bitcoin_processing.Monad.{Outcome, ok, err, panic, M}
use bitcoin_processing.Bitcoin.Formats.{Decimals, btc_amount_from_stringed_float}
use bitcoin_processing.Wallet.Withdraw.{WithdrawRequest}
use bitcoin_processing.Api.Client.{
  ClientLibraries, ClientRequest, send_http_api_request, url_join, withdraw, mute_events_for_tx_id,
}
use bitcoin_processing.Commands.{
  Terminal, WithdrawFlags, api_url_of, withdraw_command, send_withdrawal, show_response,
  withdraw_request, cancel_or_confirm_command, mute_command, get_transactions_command,
  wallet_info_command,
}
use bitcoin_processing.Commands.Runner.{
  api_server, wallet, event_broker, Event, returned, signal, shut_down, stop_called, main_returned,
  run_returned, begin_stopping, stop_next, return_from_main, happen_all, started,
}
use bitcoin_processing.Commands.Runner.Explained.{Happened}
use bitcoin_processing.Commands.Runner.Stopping.{main-Stops}

abbrev decimals : Decimals ℤ ℕ
decimals = record {
  new = λ a e. a;
  to_string = λ d. "";
  from_string = λ s.
      if str_eq s "0.3"
      then ok (pos 30000000)
      else if str_eq s "0.002"
      then ok (pos 200000)
      else err (Monad.external "not a number");
  float64 = λ d. 0;
  from_float = λ x. pos x;
  mul = λ a b. a;
  int_part = λ d. d;
  unmarshal_string = λ s. ok s;
}

abbrev line : String → M (List String) (Unit {0})
line s log = (ok tt, log ++ s ∷ [])

abbrev terminal : Terminal (List String) ℤ ℕ
terminal = record {
  decimals = decimals;
  parse_id = λ s. if str_eq s "four" then ok 4 else err (Monad.external "no id");
  unmarshal_json = λ s. if str_eq s "null" then ok Json.null else err (Monad.external "no json");
  marshal_indent = λ x. ok "shown";
  print = line;
  log = line;
}

abbrev named : ClientRequest → String
named (ClientRequest.withdraw_money r) = "withdraw"
named (ClientRequest.transaction_id id) = "id"
named (ClientRequest.muted_tx tx) = tx
named r = "other"

abbrev request : WithdrawRequest
request = record {
  id = 4;
  address = "address";
  amount = 30000000;
  fee = 200000;
  fee_type = "fixed";
  metainfo = Json.null;
}

abbrev libraries : ClientLibraries (List String) String
libraries = record {
  urls = record { parse = λ s. ok s; resolve_reference = λ a b. b; url_string = λ s. s };
  marshal = λ r. ok (named r);
  post = λ url body log. (ok "answer", log ++ url ∷ body ∷ []);
  decode_response = λ s. ok (record { error = "ok"; result = none });
  unmarshal_account = λ s. ok (record { address = ""; metainfo = Json.null });
  unmarshal_withdrawal = λ s. ok request;
  unmarshal_string = λ s. ok s;
  unmarshal_transactions = λ s. ok [];
  unmarshal_balance = λ s. ok (0, 0);
  unmarshal_amount = λ s. ok 0;
  unmarshal_events = λ s. ok [];
  no_account = record { address = ""; metainfo = Json.null };
  no_withdrawal = request;
}

abbrev flags : WithdrawFlags
flags = record { withdraw_id = "four"; withdraw_fee_type = "fixed"; withdraw_metainfo = "" }

abbrev args : List String
args = "address" ∷ "0.3" ∷ "0.002" ∷ []

with_scheme :
    (api_url_of "localhost:8000" ≡ "http://localhost:8000") × (api_url_of "https://a" ≡ "https://a")
unfolding api_url_of
with_scheme = (refl, refl)

request_logged :
    send_withdrawal libraries terminal "" false request []
    ≡ (ok tt, "/withdraw" ∷ "withdraw" ∷ "shown" ∷ [])
unfolding show_response withdraw send_http_api_request url_join
request_logged = refl

malformed_amount_not_sent :
    withdraw_command libraries terminal "" true flags ("much" ∷ "0.002" ∷ []) []
    ≡ (panic (Monad.failed (Monad.external "not a number")), [])
unfolding withdraw_command withdraw_request btc_amount_from_stringed_float
malformed_amount_not_sent = refl

malformed_id_not_sent :
    cancel_or_confirm_command libraries terminal "" "confirm" ("five" ∷ []) []
    ≡ (panic (Monad.failed (Monad.external "no id")), [])
unfolding cancel_or_confirm_command
malformed_id_not_sent = refl

muted :
    mute_command libraries terminal "" ("current_problematic" ∷ []) []
    ≡ (ok tt, "/mute_events" ∷ "current_problematic" ∷ "OK" ∷ [])
unfolding mute_command mute_events_for_tx_id send_http_api_request url_join
muted = refl

unknown_filter :
    get_transactions_command libraries terminal "" (record { direction = "up"; status = "" }) []
    ≡ (err (Monad.external "up"), [])
unfolding get_transactions_command
unknown_filter = refl

unknown_info :
    wallet_info_command libraries terminal "" "get_nothing" [] ≡ (panic Monad.unknown_command, [])
unfolding wallet_info_command
unknown_info = refl

abbrev failure : List Event
failure =
    returned wallet (err Monad.not_pending)
    ∷ shut_down
    ∷ stop_called
    ∷ returned event_broker (ok tt)
    ∷ stop_called
    ∷ returned api_server (ok tt)
    ∷ main_returned
    ∷ stop_called
    ∷ []

abbrev interrupted : List Event
interrupted =
    signal
    ∷ shut_down
    ∷ stop_called
    ∷ returned wallet (ok tt)
    ∷ stop_called
    ∷ stop_called
    ∷ returned event_broker (ok tt)
    ∷ returned api_server (ok tt)
    ∷ main_returned
    ∷ []

main_interrupted : (happen_all interrupted started).ended ≡ some (ok tt)
unfolding happen_all run_returned begin_stopping stop_next return_from_main
main_interrupted = refl

-- `main` may return before the last call of Stop.
main_failed :
    ((happen_all failure started).ended ≡ some (panic Monad.stopped_abnormally))
    × ((happen_all failure started).stops ≡ wallet ∷ event_broker ∷ [])
unfolding happen_all run_returned begin_stopping stop_next return_from_main
main_failed = (refl, refl)

main-Stops_example : Happened (returned wallet (ok tt)) interrupted
main-Stops_example = (main-Stops interrupted).0 main_interrupted wallet
