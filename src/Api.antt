-- ===== src/Api.antt =====
-- api/http.go and api/server.go: the HTTP handlers between requests and the wallet and the event
-- broker, which are interfaces here. JSON decoding, the generator of identifiers and the
-- connection that a response is written to are parameters.
pub mod Services
pub mod Answers
pub mod Requests
pub mod Websocket
pub mod Client
mod Tests
use bitcoin_processing.Base.{
  ℕ, ◌==◌, String, str_eq, Bool, true, false, not, Option, none, some, List, [], ◌∷◌, ◌++◌,
  if◌then◌else◌, find_key,
}
use bitcoin_processing.Base.Int.{ℤ, pos}
use bitcoin_processing.Types.Json.{Json}
use bitcoin_processing.Types.Transaction.{Transaction}
use bitcoin_processing.Events.Types.{Account, NotificationWithSeq}
use bitcoin_processing.Monad
use bitcoin_processing.Monad.{Error, Outcome, ok, err, panic, M, lift, gets, modify, ◌>>=◌, ◌>>◌}
use bitcoin_processing.Wallet.Withdraw.{WithdrawRequest}
use Services.{WalletService, BrokerService}

pub record GetTransactionsFilter : Type 0 where
  pub direction : String
  pub status : String

-- The `result` of a response.
pub data Body : Type 0 where
  nothing : Body
  account : Account → Body
  withdrawal : WithdrawRequest → Body
  address : String → Body
  transactions : List Transaction → Body
  balance_info : ℕ → ℕ → Body
  amount : ℕ → Body
  events : List NotificationWithSeq → Body

-- GenericHTTPAPIResponse and httpAPIResponse: the error, or "ok" and a result.
pub data Response : Type 0 where
  failure : Error → Response
  success : Body → Response

-- The fields of Server that handlers read, and what they call: `generate` gives a new identifier,
-- `write` says whether a response can be marshaled and written.
pub record Server (S : Type 0) : Type 0 where
  pub wallet : WalletService S
  pub event_broker : BrokerService S
  pub allow_withdrawal_without_id : Bool
  pub decode_metainfo : String → Outcome Json
  pub decode_withdraw : String → Outcome WithdrawRequest
  pub decode_filter : String → Outcome GetTransactionsFilter
  pub decode_id : String → Outcome ℕ
  pub decode_seq : String → Outcome ℤ
  pub generate : M S ℕ
  pub write : Response → Outcome (Unit {0})

-- One request: the state behind the handlers, and the responses written to it.
pub record Exchange (S : Type 0) : Type 0 where
  pub app : S
  pub responses : List Response

-- A response that cannot be written is a panic.
abbrev pub written_or_panic : Outcome (Unit {0}) → Outcome (Unit {0})
written_or_panic (ok u) = ok u
written_or_panic (err e) = panic (Monad.failed e)
written_or_panic (panic p) = panic p

abbrev pub response_of : Body → Option Error → Response
response_of result none = success result
response_of result (some e) = failure e

-- `uuid.Must`
abbrev pub must_outcome : Outcome ℕ → Outcome ℕ
must_outcome (ok i) = ok i
must_outcome (err e) = panic (Monad.failed e)
must_outcome (panic p) = panic p

module _ {S : Type 0} where
  abbrev pub on_app : {A : Type 0} → M S A → M (Exchange S) A
  on_app m x = let (r, s) = m x.app in (r, record x { app = s })

  abbrev pub record_response : Response → M (Exchange S) (Unit {0})
  record_response r = modify λ x. record x { responses = x.responses ++ r ∷ [] }

  abbrev pub must : M S ℕ → M S ℕ
  must m s = let (r, s') = m s in (must_outcome r, s')

module _ {S : Type 0} (s : Server S) where
  unfoldable pub respond : Body → Option Error → M (Exchange S) (Unit {0})
  respond result e = do
    lift (written_or_panic (s.write (response_of result e)))
    record_response (response_of result e)

  -- What follows a step that may fail: the rest of the handler, or the error as the response.
  abbrev pub or_respond :
      {A : Type 0} → (A → M (Exchange S) (Unit {0})) → Outcome A → M (Exchange S) (Unit {0})
  or_respond rest (ok a) = rest a
  or_respond rest (err e) = respond Body.nothing (some e)
  or_respond rest (panic p) = lift (panic p)

  -- A call whose result or error is the response.
  abbrev pub answer : {A : Type 0} → (A → Body) → M S A → M (Exchange S) (Unit {0})
  answer body m x = let (r, x') = on_app m x in or_respond (λ a. respond (body a) none) r x'

  -- A body that may be empty.
  abbrev pub decode_if_any : {A : Type 0} → A → (String → Outcome A) → String → Outcome A
  decode_if_any default decode body = if str_eq body "" then ok default else decode body

  abbrev pub read_body :
      Outcome String → (String → M (Exchange S) (Unit {0})) → M (Exchange S) (Unit {0})
  read_body body rest = or_respond rest body

  unfoldable pub new_bitcoin_address : Outcome String → M (Exchange S) (Unit {0})
  new_bitcoin_address body = read_body body λ b.
      or_respond (λ metainfo. answer Body.account (s.wallet.create_account metainfo))
        (decode_if_any Json.null s.decode_metainfo b)

  unfoldable pub notify_wallet_tx_status_changed : M (Exchange S) (Unit {0})
  notify_wallet_tx_status_changed = do
    modify (λ x. record x { app = s.wallet.trigger_wallet_update x.app })
    respond Body.nothing none

  abbrev pub with_fee_type : WithdrawRequest → WithdrawRequest
  with_fee_type req = if str_eq req.fee_type "" then record req { fee_type = "fixed" } else req

  -- The handler behind the identifier.
  abbrev pub withdraw_with_id : Bool → WithdrawRequest → M (Exchange S) (Unit {0})
  withdraw_with_id to_cold_storage req =
      answer Body.withdrawal (s.wallet.withdraw (with_fee_type req) to_cold_storage)

  -- A request without an identifier: an error, or a new identifier where that is allowed.
  abbrev pub withdraw_without_id : Bool → Bool → WithdrawRequest → M (Exchange S) (Unit {0})
  withdraw_without_id false to_cold_storage req =
      respond Body.nothing (some (Monad.external "Withdrawal without id is not allowed"))
  withdraw_without_id true to_cold_storage req =
      on_app (must s.generate) >>= λ i. withdraw_with_id to_cold_storage (record req { id = i })

  abbrev pub withdraw_request : Bool → WithdrawRequest → M (Exchange S) (Unit {0})
  withdraw_request to_cold_storage req =
      if req.id == 0
      then withdraw_without_id s.allow_withdrawal_without_id to_cold_storage req
      else withdraw_with_id to_cold_storage req

  unfoldable pub withdraw : Bool → Outcome String → M (Exchange S) (Unit {0})
  withdraw to_cold_storage body =
      read_body body λ b. or_respond (withdraw_request to_cold_storage) (s.decode_withdraw b)

  unfoldable pub get_hot_storage_address : M (Exchange S) (Unit {0})
  get_hot_storage_address =
      gets (λ x. s.wallet.get_hot_wallet_address x.app) >>= λ a. respond (Body.address a) none

  unfoldable pub get_transactions : Outcome String → M (Exchange S) (Unit {0})
  get_transactions body = read_body body λ b.
      or_respond
        (λ f. answer Body.transactions (s.wallet.get_transactions_with_filter f.direction f.status))
        (decode_if_any (record { direction = ""; status = "" }) s.decode_filter b)

  unfoldable pub get_balance : M (Exchange S) (Unit {0})
  get_balance = answer (λ p. Body.balance_info p.0 p.1) s.wallet.get_balance

  unfoldable pub get_required_from_cold_storage : M (Exchange S) (Unit {0})
  get_required_from_cold_storage = answer Body.amount s.wallet.get_money_required_from_cold_storage

  -- The handlers that read an identifier and call a method with it.
  abbrev pub with_id : (ℕ → M S (Unit {0})) → Outcome String → M (Exchange S) (Unit {0})
  with_id call body =
      read_body body λ b. or_respond (λ id. answer (λ _. Body.nothing) (call id)) (s.decode_id b)

  unfoldable pub cancel_pending : Outcome String → M (Exchange S) (Unit {0})
  cancel_pending body = with_id s.wallet.cancel_pending_tx body

  unfoldable pub confirm_pending_transaction : Outcome String → M (Exchange S) (Unit {0})
  confirm_pending_transaction body = with_id s.wallet.confirm_pending_transaction body

  unfoldable pub get_events : Outcome String → M (Exchange S) (Unit {0})
  get_events body = read_body body λ b.
      or_respond (λ seq. answer Body.events (s.event_broker.get_events_from_seq seq))
        (decode_if_any (pos 0) s.decode_seq b)

  -- A body that names the event being retried stands for the nil identifier.
  abbrev pub muted_id : String → Outcome ℕ
  muted_id body = if str_eq body "\"current_problematic\"" then ok 0 else s.decode_id body

  unfoldable pub mute_events : Outcome String → M (Exchange S) (Unit {0})
  mute_events body = read_body body λ b.
      or_respond (λ id. answer (λ _. Body.nothing) (s.event_broker.mute_events_with_tx_id id))
        (muted_id b)

-- The handlers that initHTTPAPIServer registers, but for the metrics.
pub data Route : Type 0 where
  new_wallet notify_wallet withdraw_regular hot_storage_address transactions_list balance : Route
  required_from_cold_storage cancel withdraw_to_cold_storage confirm events_list mute : Route

abbrev pub routes : List (Route × String)
routes =
    (new_wallet, "/new_wallet")
    ∷ (notify_wallet, "/notify_wallet")
    ∷ (withdraw_regular, "/withdraw")
    ∷ (hot_storage_address, "/get_hot_storage_address")
    ∷ (transactions_list, "/get_transactions")
    ∷ (balance, "/get_balance")
    ∷ (required_from_cold_storage, "/get_required_from_cold_storage")
    ∷ (cancel, "/cancel_pending")
    ∷ (withdraw_to_cold_storage, "/withdraw_to_cold_storage")
    ∷ (confirm, "/confirm")
    ∷ (events_list, "/get_events")
    ∷ (mute, "/mute_events")
    ∷ []

-- Each handler under its URL.
unfoldable pub route_of : String → Option Route
route_of url = find_key routes url

module _ {S : Type 0} (s : Server S) where
  unfoldable pub serve : Route → Outcome String → M (Exchange S) (Unit {0})
  serve new_wallet body = new_bitcoin_address s body
  serve notify_wallet body = notify_wallet_tx_status_changed s
  serve withdraw_regular body = withdraw s false body
  serve hot_storage_address body = get_hot_storage_address s
  serve transactions_list body = get_transactions s body
  serve balance body = get_balance s
  serve required_from_cold_storage body = get_required_from_cold_storage s
  serve cancel body = cancel_pending s body
  serve withdraw_to_cold_storage body = withdraw s true body
  serve confirm body = confirm_pending_transaction s body
  serve events_list body = get_events s body
  serve mute body = mute_events s body
