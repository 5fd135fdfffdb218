-- ===== src/Api/Client.antt =====
-- api/client and util/urljoin.go: the client of the HTTP API. encoding/json, net/http and net/url
-- are parameters. Where a method fails, what it returns beside the error is left out.
pub mod Served
pub mod Websocket
mod Tests
use bitcoin_processing.Base.{
  ℕ, String, str_eq, Bool, true, false, Option, none, some, List, [], ◌∷◌, if◌then◌else◌,
}
use bitcoin_processing.Base.Int.{ℤ}
use bitcoin_processing.Types.Json.{Json}
use bitcoin_processing.Types.Transaction.{Transaction}
use bitcoin_processing.Events.Types.{Account, NotificationWithSeq}
use bitcoin_processing.Monad
use bitcoin_processing.Monad.{Outcome, ok, err, panic, M, lift, ◌>>=◌}
use bitcoin_processing.Wallet.Withdraw.{WithdrawRequest}
use bitcoin_processing.Api.{GetTransactionsFilter}

-- url.Parse, ResolveReference and String.
pub record Urls (U : Type 0) : Type 0 where
  pub parse : String → Outcome U
  pub resolve_reference : U → U → U
  pub url_string : U → String

-- `URLJoin` and `MustURLJoin`
module _ {U : Type 0} (u : Urls U) where
  abbrev pub join_parsed : Outcome U → Outcome U → Outcome String
  join_parsed (ok base) (ok relative) = ok (u.url_string (u.resolve_reference base relative))
  join_parsed (ok base) (err e) = err e
  join_parsed (ok base) (panic p) = panic p
  join_parsed (err e) relative = err e
  join_parsed (panic p) relative = panic p

  unfoldable pub url_join : String → String → Outcome String
  url_join base relative = join_parsed (u.parse base) (u.parse relative)

  abbrev pub result_or_panic : Outcome String → Outcome String
  result_or_panic (err e) = panic (Monad.failed e)
  result_or_panic r = r

  unfoldable pub must_url_join : String → String → Outcome String
  unfolding url_join
  must_url_join base relative = result_or_panic (url_join base relative)

-- What the methods send: `nil`, or a value that is marshaled. `subscribe` is SubscribeMessage.
pub data ClientRequest : Type 0 where
  no_request : ClientRequest
  transaction_id : ℕ → ClientRequest
  subscribe : ℤ → ClientRequest
  filter_by : GetTransactionsFilter → ClientRequest
  with_metainfo : Json → ClientRequest
  withdraw_money : WithdrawRequest → ClientRequest
  muted_tx : String → ClientRequest

-- callbackedHTTPAPIResponse: the JSON of the result, where there is one, is what the callback gets.
pub record ApiResponse : Type 0 where
  pub error : String
  pub result : Option String

-- `post` is http.Post, and the body of its answer as it is read. The functions `unmarshal` are
-- json.Unmarshal into a variable of each type, and `no_account` and so on are what such a variable
-- holds before.
pub record ClientLibraries (S U : Type 0) : Type 0 where
  pub urls : Urls U
  pub marshal : ClientRequest → Outcome String
  pub post : String → String → M S String
  pub decode_response : String → Outcome ApiResponse
  pub unmarshal_account : String → Outcome Account
  pub unmarshal_withdrawal : String → Outcome WithdrawRequest
  pub unmarshal_string : String → Outcome String
  pub unmarshal_transactions : String → Outcome (List Transaction)
  pub unmarshal_balance : String → Outcome (ℕ × ℕ)
  pub unmarshal_amount : String → Outcome ℕ
  pub unmarshal_events : String → Outcome (List NotificationWithSeq)
  pub no_account : Account
  pub no_withdrawal : WithdrawRequest

abbrev pub result_of : {A : Type 0} → A → (String → Outcome A) → Option String → Outcome A
result_of empty unmarshal none = ok empty
result_of empty unmarshal (some json) = unmarshal json

abbrev pub unless_error : {A : Type 0} → String → A → Outcome A
unless_error error a = if str_eq error "ok" then ok a else err (Monad.external error)

module _ {S U : Type 0} (l : ClientLibraries S U) (api_base_url : String) where
  abbrev pub request_body : ClientRequest → Outcome String
  request_body no_request = ok ""
  request_body r = l.marshal r

  -- The answer: an error of the callback is one of decoding, and comes before the error in it.
  abbrev pub read_answer : {A : Type 0} → A → (String → Outcome A) → String → M S A
  read_answer empty unmarshal answer = lift (l.decode_response answer) >>= λ response.
      lift (result_of empty unmarshal response.result) >>= λ a. lift (unless_error response.error a)

  -- `sendHTTPAPIRequest`, with what the callback reads.
  unfoldable pub send_http_api_request :
      {A : Type 0} → String → ClientRequest → A → (String → Outcome A) → M S A
  send_http_api_request relative_url request empty unmarshal =
      lift (request_body request) >>= λ body.
      lift (url_join l.urls api_base_url relative_url) >>= λ full_url.
      l.post full_url body >>= read_answer empty unmarshal

  -- A call without a callback.
  abbrev pub no_result : String → Outcome (Unit {0})
  no_result json = ok tt

  unfoldable pub cancel : ℕ → M S (Unit {0})
  cancel id = send_http_api_request "/cancel_pending" (transaction_id id) tt no_result

  unfoldable pub confirm : ℕ → M S (Unit {0})
  confirm id = send_http_api_request "/confirm" (transaction_id id) tt no_result

  unfoldable pub get_events : ℤ → M S (List NotificationWithSeq)
  get_events start_seq =
      send_http_api_request "/get_events" (subscribe start_seq) [] l.unmarshal_events

  unfoldable pub get_transactions : GetTransactionsFilter → M S (List Transaction)
  get_transactions filter =
      send_http_api_request "/get_transactions" (filter_by filter) [] l.unmarshal_transactions

  unfoldable pub mute_events_for_tx_id : String → M S (Unit {0})
  mute_events_for_tx_id tx = send_http_api_request "/mute_events" (muted_tx tx) tt no_result

  -- Metainfo is an interface value: `none` is nil.
  unfoldable pub new_wallet : Option Json → M S Account
  new_wallet none = send_http_api_request "/new_wallet" no_request l.no_account l.unmarshal_account
  new_wallet (some metainfo) =
      send_http_api_request "/new_wallet" (with_metainfo metainfo) l.no_account l.unmarshal_account

  unfoldable pub get_hot_storage_address : M S String
  get_hot_storage_address =
      send_http_api_request "/get_hot_storage_address" no_request "" l.unmarshal_string

  unfoldable pub get_balance : M S (ℕ × ℕ)
  get_balance = send_http_api_request "/get_balance" no_request (0, 0) l.unmarshal_balance

  unfoldable pub get_required_from_cold_storage : M S ℕ
  get_required_from_cold_storage =
      send_http_api_request "/get_required_from_cold_storage" no_request 0 l.unmarshal_amount

  abbrev pub withdraw_at : String → WithdrawRequest → M S WithdrawRequest
  withdraw_at relative_url request =
      send_http_api_request relative_url (withdraw_money request) l.no_withdrawal
        l.unmarshal_withdrawal

  unfoldable pub withdraw : WithdrawRequest → M S WithdrawRequest
  withdraw request = withdraw_at "/withdraw" request

  unfoldable pub withdraw_to_cold_storage : WithdrawRequest → M S WithdrawRequest
  withdraw_to_cold_storage request = withdraw_at "/withdraw_to_cold_storage" request
