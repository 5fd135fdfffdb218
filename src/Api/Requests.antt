-- ===== src/Api/Requests.antt =====
-- Which withdrawals the API passes on to the wallet (the withdraw handler of api/http.go).
use bitcoin_processing.Base.{
  ◌≡◌, ◌≢◌, ◌⊎◌, inl, inr, refl, ℕ, ◌==◌, String, str_eq, str_eq_iff, Bool, true, false, Option,
  none, some, Bool-cases, arith,
}
use bitcoin_processing.Monad
use bitcoin_processing.Monad.{Error, Outcome, ok, err, panic, M, lift, ◌>>=◌}
use bitcoin_processing.Monad.Inversion.{Result}
use bitcoin_processing.Wallet.Withdraw.{WithdrawRequest}
use bitcoin_processing.Api.{
  Body, Response, Server, Exchange, must_outcome, response_of, written_or_panic, record_response,
  respond, or_respond, with_fee_type, withdraw_with_id, withdraw_without_id, withdraw_request,
  withdraw,
}

-- The state behind a withdraw handler: as it was, perhaps with an identifier generated; or what
-- the wallet makes of one request, which has an identifier and a fee type.
pub data Passed {S : Type 0} (s : Server S) (cold : Bool) (a : S) : S → Type 0 where
  untouched : (b : S) → b ≡ a → Passed s cold a b
  generated : (b : S) → b ≡ (s.generate a).1 → Passed s cold a b
  passed :
      (b c : S) (req : WithdrawRequest)
      → (c ≡ a) ⊎ (c ≡ (s.generate a).1)
      → req.id ≢ 0
      → req.fee_type ≢ ""
      → b ≡ (s.wallet.withdraw req cold c).1
      → Passed s cold a b

module _ {S : Type 0} (s : Server S) where
  finish_app :
      (r : Response) (o : Outcome (Unit {0})) (x : Exchange S)
      → ((lift (written_or_panic o) >>= (λ (u : Unit {0}). record_response r)) x).1.app ≡ x.app
  finish_app r (ok u) x = refl
  finish_app r (err e) x = refl
  finish_app r (panic p) x = refl

  -- A response leaves the state behind the handler alone.
  respond_app : (b : Body) (e : Option Error) (x : Exchange S) → (respond s b e x).1.app ≡ x.app
  unfolding respond
  respond_app b e x = finish_app (response_of b e) (s.write (response_of b e)) x

  or_respond_app :
      {A : Type 0} (body : A → Body) (r : Outcome A) (x : Exchange S)
      → (or_respond s (λ a. respond s (body a) none) r x).1.app ≡ x.app
  or_respond_app body (ok a) x = respond_app (body a) none x
  or_respond_app body (err e) x = respond_app Body.nothing (some e) x
  or_respond_app body (panic p) x = refl

  with_fee_type-not_empty : (req : WithdrawRequest) → (with_fee_type s req).fee_type ≢ ""
  with_fee_type-not_empty req = elim (Bool-cases (str_eq req.fee_type "")) [
    | inl e ↦ rw e (λ h. cc)
    | inr e ↦ rw e (λ h. let same = (str_eq_iff req.fee_type "").1 h in cc)
  ]

  with_fee_type-id : (req : WithdrawRequest) → (with_fee_type s req).id ≡ req.id
  with_fee_type-id req = elim (Bool-cases (str_eq req.fee_type "")) [
    | inl e ↦ rw e refl
    | inr e ↦ rw e refl
  ]

  with_id-Passed :
      (cold : Bool) (req : WithdrawRequest) (a : S) (x : Exchange S)
      → (x.app ≡ a) ⊎ (x.app ≡ (s.generate a).1)
      → req.id ≢ 0
      → Passed s cold a (withdraw_with_id s cold req x).1.app
  with_id-Passed cold req a x from n =
      let call = s.wallet.withdraw (with_fee_type s req) cold x.app in
      Passed.passed (withdraw_with_id s cold req x).1.app x.app (with_fee_type s req) from
        (rw (with_fee_type-id req) n) (with_fee_type-not_empty req)
        (or_respond_app Body.withdrawal call.0 (record x { app = call.1 }))

  generated-Passed :
      (cold : Bool) (req : WithdrawRequest) (r : Outcome ℕ) (a : S) (x : Exchange S)
      → Result (λ i. i ≢ 0) r
      → x.app ≡ (s.generate a).1
      → Passed s cold a
          ((lift (must_outcome r) >>= (λ i. withdraw_with_id s cold (record req { id = i })))
            x).1.app
  generated-Passed cold req (ok i) a x n e =
      with_id-Passed cold (record req { id = i }) a x (inr e) n
  generated-Passed cold req (err e) a x n q = Passed.generated x.app q
  generated-Passed cold req (panic p) a x n q = Passed.generated x.app q

  without_id-Passed :
      (allowed cold : Bool) (req : WithdrawRequest) (x : Exchange S)
      → Result (λ i. i ≢ 0) (s.generate x.app).0
      → Passed s cold x.app (withdraw_without_id s allowed cold req x).1.app
  without_id-Passed false cold req x n =
      Passed.untouched (withdraw_without_id s false cold req x).1.app
        (respond_app Body.nothing (some (Monad.external "Withdrawal without id is not allowed")) x)
  without_id-Passed true cold req x n =
      generated-Passed cold req (s.generate x.app).0 x.app (record x { app = (s.generate x.app).1 })
        n refl

  request-Passed :
      (cold : Bool) (req : WithdrawRequest) (x : Exchange S)
      → Result (λ i. i ≢ 0) (s.generate x.app).0
      → Passed s cold x.app (withdraw_request s cold req x).1.app
  request-Passed cold req x n = elim (Bool-cases (req.id == 0)) [
    | inl e ↦ rw e (without_id-Passed s.allow_withdrawal_without_id cold req x n)
    | inr e ↦ rw e (with_id-Passed cold req x.app x (inl refl) (λ h. ground arith))
  ]

  or_respond-Passed :
      {A : Type 0} (cold : Bool) (rest : A → M (Exchange S) (Unit {0})) (r : Outcome A)
      (x : Exchange S)
      → ((a : A) → Passed s cold x.app (rest a x).1.app)
      → Passed s cold x.app (or_respond s rest r x).1.app
  or_respond-Passed cold rest (ok a) x h = h a
  or_respond-Passed cold rest (err e) x h =
      Passed.untouched (respond s Body.nothing (some e) x).1.app
        (respond_app Body.nothing (some e) x)
  or_respond-Passed cold rest (panic p) x h = Passed.untouched x.app refl

  -- A withdraw handler changes the state behind it by nothing but generating an identifier and
  -- one call of the wallet's Withdraw, and the request of that call has an identifier, which is
  -- not the nil one, and a fee type: whatever the body and the settings, where a generated
  -- identifier is not the nil one.
  pub withdraw-Passed :
      (cold : Bool) (body : Outcome String) (x : Exchange S)
      → Result (λ i. i ≢ 0) (s.generate x.app).0
      → Passed s cold x.app (withdraw s cold body x).1.app
  unfolding withdraw
  withdraw-Passed cold body x n =
      or_respond-Passed cold (λ b. or_respond s (withdraw_request s cold) (s.decode_withdraw b))
        body x
        λ b.
          or_respond-Passed cold (withdraw_request s cold) (s.decode_withdraw b) x
            λ req. request-Passed cold req x n
