-- ===== src/Api/Answers.antt =====
-- How often a handler of api/http.go responds.
use bitcoin_processing.Base.{
  ◌≡◌, refl, ℕ, ◌==◌, String, Bool, true, false, Option, none, some, List, [], ◌∷◌, ◌++◌,
  Bool-cases, inl, inr,
}
use bitcoin_processing.Base.Int.{pos}
use bitcoin_processing.Types.Json.{Json}
use bitcoin_processing.Monad
use bitcoin_processing.Monad.{Error, Fault, Outcome, ok, err, panic, M, lift, ◌>>=◌}
use bitcoin_processing.Wallet.Withdraw.{WithdrawRequest}
use bitcoin_processing.Api.{
  Body, Response, Server, Exchange, Route, on_app, response_of, written_or_panic, record_response,
  respond, or_respond, answer, serve, must, decode_if_any, with_fee_type, withdraw_with_id,
  withdraw_without_id, withdraw_request, muted_id, new_bitcoin_address,
  notify_wallet_tx_status_changed, withdraw, get_hot_storage_address, get_transactions, get_balance,
  get_required_from_cold_storage, cancel_pending, confirm_pending_transaction, get_events,
  mute_events,
}

-- How a handler may end: with one more response, or with a panic; never with an error.
abbrev pub Once : List Response → Outcome (Unit {0}) × List Response → Type 0
Once before (ok u, after) = (r : Response) × (after ≡ before ++ r ∷ [])
Once before (err e, after) = ⊥
Once before (panic p, after) = Unit

module _ {S : Type 0} where
  abbrev pub EndsOnce : Exchange S → Outcome (Unit {0}) × Exchange S → Type 0
  EndsOnce x y = Once x.responses (y.0, y.1.responses)

  pub record AnswersOnce (m : M (Exchange S) (Unit {0})) : Type 0 where
    pub once : (x : Exchange S) → EndsOnce x (m x)

module _ {S : Type 0} (s : Server S) where
  finish_once :
      (r : Response) (o : Outcome (Unit {0})) (x : Exchange S)
      → EndsOnce x ((lift (written_or_panic o) >>= (λ (u : Unit {0}). record_response r)) x)
  finish_once r (ok u) x = (r, refl)
  finish_once r (err e) x = tt
  finish_once r (panic p) x = tt

  Answers-respond : (b : Body) (e : Option Error) → AnswersOnce (respond s b e)
  unfolding respond
  Answers-respond b e = record {
    once = λ x. finish_once (response_of b e) (s.write (response_of b e)) x;
  }

  Answers-or_respond :
      {A : Type 0} (rest : A → M (Exchange S) (Unit {0})) (r : Outcome A)
      → ((a : A) → AnswersOnce (rest a))
      → AnswersOnce (or_respond s rest r)
  Answers-or_respond rest (ok a) h = h a
  Answers-or_respond rest (err e) h = Answers-respond Body.nothing (some e)
  Answers-or_respond rest (panic p) h = record { once = λ x. tt }

  Answers-answer : {A : Type 0} (body : A → Body) (m : M S A) → AnswersOnce (answer s body m)
  Answers-answer body m = record {
    once = λ x.
        (Answers-or_respond (λ a. respond s (body a) none) (m x.app).0
            (λ a. Answers-respond (body a) none)).once
          (record x { app = (m x.app).1 });
  }

  Answers-withdraw_with_id :
      (cold : Bool) (req : WithdrawRequest) → AnswersOnce (withdraw_with_id s cold req)
  Answers-withdraw_with_id cold req =
      Answers-answer Body.withdrawal (s.wallet.withdraw (with_fee_type s req) cold)

  -- A generated identifier, or a panic.
  generated_once :
      (rest : ℕ → M (Exchange S) (Unit {0})) (r : Outcome ℕ × S) (x : Exchange S)
      → ((i : ℕ) → AnswersOnce (rest i))
      → EndsOnce x ((on_app (must (λ _. r)) >>= rest) x)
  generated_once rest (ok i, a) x h = (h i).once (record x { app = a })
  generated_once rest (err e, a) x h = tt
  generated_once rest (panic p, a) x h = tt

  Answers-withdraw_without_id :
      (allowed cold : Bool) (req : WithdrawRequest)
      → AnswersOnce (withdraw_without_id s allowed cold req)
  Answers-withdraw_without_id false cold req =
      Answers-respond Body.nothing (some (Monad.external "Withdrawal without id is not allowed"))
  Answers-withdraw_without_id true cold req = record {
    once = λ x.
        generated_once (λ i. withdraw_with_id s cold (record req { id = i })) (s.generate x.app) x
          (λ i. Answers-withdraw_with_id cold (record req { id = i }));
  }

  Answers-withdraw_request :
      (cold : Bool) (req : WithdrawRequest) → AnswersOnce (withdraw_request s cold req)
  Answers-withdraw_request cold req = elim (Bool-cases (req.id == 0)) [
    | inl e ↦ rw e (Answers-withdraw_without_id s.allow_withdrawal_without_id cold req)
    | inr e ↦ rw e (Answers-withdraw_with_id cold req)
  ]

  Answers-withdraw : (cold : Bool) (body : Outcome String) → AnswersOnce (withdraw s cold body)
  unfolding withdraw
  Answers-withdraw cold body =
      Answers-or_respond (λ b. or_respond s (withdraw_request s cold) (s.decode_withdraw b)) body
        λ b.
          Answers-or_respond (withdraw_request s cold) (s.decode_withdraw b)
            (Answers-withdraw_request cold)

  -- A body that is decoded, and a call with what it says.
  Answers-call :
      {A B : Type 0} (decode : String → Outcome B) (body_of : A → Body) (call : B → M S A)
      (body : Outcome String)
      → AnswersOnce
          (or_respond s (λ b. or_respond s (λ d. answer s body_of (call d)) (decode b)) body)
  Answers-call decode body_of call body =
      Answers-or_respond (λ b. or_respond s (λ d. answer s body_of (call d)) (decode b)) body
        λ b.
          Answers-or_respond (λ d. answer s body_of (call d)) (decode b)
            λ d. Answers-answer body_of (call d)

  serve-AnswersOnce : (route : Route) (body : Outcome String) → AnswersOnce (serve s route body)
  unfolding serve new_bitcoin_address notify_wallet_tx_status_changed get_hot_storage_address
      get_transactions get_balance get_required_from_cold_storage cancel_pending
      confirm_pending_transaction get_events mute_events
  serve-AnswersOnce Route.new_wallet body =
      Answers-call (decode_if_any s Json.null s.decode_metainfo) Body.account
        s.wallet.create_account body
  serve-AnswersOnce Route.notify_wallet body = record {
    once = λ x.
        (Answers-respond Body.nothing none).once
          (record x { app = s.wallet.trigger_wallet_update x.app });
  }
  serve-AnswersOnce Route.withdraw_regular body = Answers-withdraw false body
  serve-AnswersOnce Route.hot_storage_address body = record {
    once =
        λ x. (Answers-respond (Body.address (s.wallet.get_hot_wallet_address x.app)) none).once x;
  }
  serve-AnswersOnce Route.transactions_list body =
      Answers-call (decode_if_any s (record { direction = ""; status = "" }) s.decode_filter)
        Body.transactions (λ f. s.wallet.get_transactions_with_filter f.direction f.status) body
  serve-AnswersOnce Route.balance body =
      Answers-answer (λ p. Body.balance_info p.0 p.1) s.wallet.get_balance
  serve-AnswersOnce Route.required_from_cold_storage body =
      Answers-answer Body.amount s.wallet.get_money_required_from_cold_storage
  serve-AnswersOnce Route.cancel body =
      Answers-call s.decode_id (λ _. Body.nothing) s.wallet.cancel_pending_tx body
  serve-AnswersOnce Route.withdraw_to_cold_storage body = Answers-withdraw true body
  serve-AnswersOnce Route.confirm body =
      Answers-call s.decode_id (λ _. Body.nothing) s.wallet.confirm_pending_transaction body
  serve-AnswersOnce Route.events_list body =
      Answers-call (decode_if_any s (pos 0) s.decode_seq) Body.events
        s.event_broker.get_events_from_seq body
  serve-AnswersOnce Route.mute body =
      Answers-call (muted_id s) (λ _. Body.nothing) s.event_broker.mute_events_with_tx_id body

  -- Every handler of the API ends with exactly one response more than before, or with a panic, and
  -- never with an error: whatever the body, and however decoding and the calls of the wallet and
  -- the event broker end.
  pub serve_once :
      (route : Route) (body : Outcome String) (x : Exchange S) → EndsOnce x (serve s route body x)
  serve_once route body x = (serve-AnswersOnce route body).once x
