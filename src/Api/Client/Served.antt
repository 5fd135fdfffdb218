-- ===== src/Api/Client/Served.antt =====
-- The client of api/client against the handlers of api/http.go, over a network between them.
use bitcoin_processing.Base.{ℕ, String, str_eq, true, false, some, List, [], ◌∷◌, ◌≡◌}
use bitcoin_processing.Types.Json.{Json}
use bitcoin_processing.Events.Types.{Account}
use bitcoin_processing.Monad
use bitcoin_processing.Monad.{Error, Fault, Outcome, ok, err, panic, M}
use bitcoin_processing.Monad.Inversion.{Result}
use bitcoin_processing.Wallet.Withdraw.{WithdrawRequest}
use bitcoin_processing.Api.{
  Body, Response, Server, Exchange, Route, route_of, serve, or_respond, on_app, with_fee_type,
  withdraw_request,
}
use bitcoin_processing.Api.Client.{ClientRequest, ClientLibraries, url_join, get_balance, withdraw}

module _ {S : Type 0} (s : Server S) (encode : Response → String) where
  -- The answer to a request: the one response, or an error where the handler panics.
  abbrev pub answer_of : Outcome (Unit {0}) → List Response → Outcome String
  answer_of (ok u) (r ∷ []) = ok (encode r)
  answer_of r rs = err (Monad.external "EOF")

  -- A request that reaches the handler of a route.
  abbrev pub exchange : Route → String → M S String
  exchange route body a =
      let (r, x) = serve s route (ok body) (record { app = a; responses = [] }) in
      (answer_of r x.responses, x.app)

-- JSON as it is written: requests, results, responses, and the texts of errors; and which requests
-- and results it keeps, so that they are read as they were.
pub record Wire : Type 1 where
  pub json : ClientRequest → String
  pub raw : Body → String
  pub encode : Response → String
  pub error_text : Error → String
  pub keeps_request : ClientRequest → Type 0
  pub keeps_body : Body → Type 0

-- What net/http, net/url and encoding/json document: a request reaches the handler registered for
-- its path, and what JSON keeps of what one side writes is what the other reads. A response with an
-- error has no result (`null`), which leaves a variable as it was. No error has the text "ok".
pub record WireLaws {S U : Type 0} (l : ClientLibraries S U) (base : String) (s : Server S)
    (v : Wire) : Type 0 where
  pub full_url : String → String
  pub joined : (path : String) → url_join l.urls base path ≡ ok (full_url path)
  pub reached :
      (path body : String) (route : Route) (a : S)
      → route_of path ≡ some route
      → l.post (full_url path) body a ≡ exchange s v.encode route body a
  pub marshaled : (r : ClientRequest) → l.marshal r ≡ ok (v.json r)
  pub json_not_empty : (m : Json) → str_eq (v.json (ClientRequest.with_metainfo m)) "" ≡ false
  pub id_read :
      (i : ℕ)
      → v.keeps_request (ClientRequest.transaction_id i)
      → s.decode_id (v.json (ClientRequest.transaction_id i)) ≡ ok i
  pub metainfo_read :
      (m : Json)
      → v.keeps_request (ClientRequest.with_metainfo m)
      → s.decode_metainfo (v.json (ClientRequest.with_metainfo m)) ≡ ok m
  pub withdraw_read :
      (r : WithdrawRequest)
      → v.keeps_request (ClientRequest.withdraw_money r)
      → s.decode_withdraw (v.json (ClientRequest.withdraw_money r)) ≡ ok r
  pub written : (r : Response) → s.write r ≡ ok tt
  pub success_read :
      (b : Body)
      → l.decode_response (v.encode (Response.success b))
        ≡ ok (record { error = "ok"; result = some (v.raw b) })
  pub failure_read :
      (e : Error)
      → l.decode_response (v.encode (Response.failure e))
        ≡ ok (record { error = v.error_text e; result = some "null" })
  pub text-ne-ok : (e : Error) → str_eq (v.error_text e) "ok" ≡ false
  pub no_account_read : l.unmarshal_account "null" ≡ ok l.no_account
  pub no_withdrawal_read : l.unmarshal_withdrawal "null" ≡ ok l.no_withdrawal
  pub no_string_read : l.unmarshal_string "null" ≡ ok ""
  pub no_balance_read : l.unmarshal_balance "null" ≡ ok (0, 0)
  -- BTCAmount.UnmarshalJSON reads null as the empty text, which is no number.
  pub no_amount : Error
  pub no_amount_read : l.unmarshal_amount "null" ≡ err no_amount
  pub account_read :
      (a : Account)
      → v.keeps_body (Body.account a)
      → l.unmarshal_account (v.raw (Body.account a)) ≡ ok a
  pub withdrawal_read :
      (r : WithdrawRequest)
      → v.keeps_body (Body.withdrawal r)
      → l.unmarshal_withdrawal (v.raw (Body.withdrawal r)) ≡ ok r
  pub string_read :
      (a : String)
      → v.keeps_body (Body.address a)
      → l.unmarshal_string (v.raw (Body.address a)) ≡ ok a
  pub balance_read :
      (a b : ℕ)
      → v.keeps_body (Body.balance_info a b)
      → l.unmarshal_balance (v.raw (Body.balance_info a b)) ≡ ok (a, b)
  pub amount_read :
      (a : ℕ) → v.keeps_body (Body.amount a) → l.unmarshal_amount (v.raw (Body.amount a)) ≡ ok a

-- A call of the server's as the client sees it: an error is known by its text, and a panic is an
-- answer that does not come.
abbrev pub remote_outcome : {A : Type 0} → (Error → String) → Outcome A → Outcome A
remote_outcome text (ok a) = ok a
remote_outcome text (err e) = err (Monad.external (text e))
remote_outcome text (panic p) = err (Monad.external "EOF")

abbrev pub remote : {S A : Type 0} → (Error → String) → M S A → M S A
remote text m a = let (r, b) = m a in (remote_outcome text r, b)

-- The same where reading the missing result beside an error may itself fail: that error is then the
-- one that the client gives.
abbrev pub after_null : {A : Type 0} → Outcome A → Error → Outcome A
after_null (ok empty) e = err e
after_null (err unread) e = err unread
after_null (panic p) e = panic p

abbrev pub remote_outcome_with : {A : Type 0} → Outcome A → (Error → String) → Outcome A → Outcome A
remote_outcome_with null text (ok a) = ok a
remote_outcome_with null text (err e) = after_null null (Monad.external (text e))
remote_outcome_with null text (panic p) = err (Monad.external "EOF")

abbrev pub remote_with : {S A : Type 0} → Outcome A → (Error → String) → M S A → M S A
remote_with null text m a = let (r, b) = m a in (remote_outcome_with null text r, b)

module _ {S U : Type 0} (l : ClientLibraries S U) (base : String) (s : Server S) (v : Wire)
    (laws : WireLaws l base s v) where
  -- The request and the results of the calls with an identifier, metainfo and a withdrawal are
  -- ones that JSON keeps.
  pub record Kept (a : S) (id : ℕ) (m : Json) (r : WithdrawRequest) : Type 0 where
    pub kept_id : v.keeps_request (ClientRequest.transaction_id id)
    pub kept_metainfo : v.keeps_request (ClientRequest.with_metainfo m)
    pub kept_withdrawal : v.keeps_request (ClientRequest.withdraw_money r)
    pub kept_account : Result (λ x. v.keeps_body (Body.account x)) (s.wallet.create_account m a).0
    pub kept_address : v.keeps_body (Body.address (s.wallet.get_hot_wallet_address a))
    pub kept_balance :
        Result (λ p. v.keeps_body (Body.balance_info p.0 p.1)) (s.wallet.get_balance a).0
    pub kept_required :
        Result
          (λ n. v.keeps_body (Body.amount n))
          (s.wallet.get_money_required_from_cold_storage a).0
    pub kept_regular :
        Result
          (λ x. v.keeps_body (Body.withdrawal x))
          (s.wallet.withdraw (with_fee_type s r) false a).0
    pub kept_cold :
        Result
          (λ x. v.keeps_body (Body.withdrawal x))
          (s.wallet.withdraw (with_fee_type s r) true a).0
