-- ===== src/Wallet/Withdraw/Checks.antt =====
-- What a withdraw request has to meet.
use bitcoin_processing.Base.{
  String, Bool, true, false, ◌≡◌, ◌≢◌, ◌≤◌, ◌↔◌, arith, ltb, str_eq_iff, str_eq, not, ◌&&◌,
  if◌then◌else◌, ◌⊎◌, inl, inr, refl, sym, ◌∙◌, Option-cases, none,
}
use bitcoin_processing.Bitcoin.Fee.{FeeType, fee_type_string, fee_type_from_string}
use bitcoin_processing.Bitcoin.Names.{fee_type_names}
use bitcoin_processing.Types.Transaction.{Transaction}
use bitcoin_processing.Monad
use bitcoin_processing.Monad.{Outcome, ok, err}
use bitcoin_processing.Wallet.Interfaces.{Settings}
use bitcoin_processing.Wallet.Withdraw.{
  WithdrawRequest, check_withdraw_limits, withdraw_address, prepare_with_fee_type, prepare_withdraw,
  bind_outcome, limits_unless_cold,
}

-- The limits of the settings.
abbrev pub WithinLimits : Settings → WithdrawRequest → FeeType → Type 0
WithinLimits s r ft =
    (s.min_withdraw ≤ r.amount)
    × (ft ≡ FeeType.per_kb_rate → s.min_fee_per_kb ≤ r.fee)
    × (ft ≡ FeeType.fixed → s.min_fee_fixed ≤ r.fee)

-- checkWithdrawLimits accepts a request exactly when it is within the limits of the settings, and
-- asks for a manual confirmation exactly when the amount is above the threshold.
pub check_withdraw_limits_lem :
    (s : Settings) (r : WithdrawRequest) (ft : FeeType) (need : Bool)
    → (check_withdraw_limits s r ft ≡ ok need)
      ↔ (WithinLimits s r ft × (need ≡ ltb s.min_withdraw_without_manual_confirmation r.amount))
unfolding check_withdraw_limits
check_withdraw_limits_lem s r FeeType.invalid need = (λ h. ground arith, λ h. ground arith)
check_withdraw_limits_lem s r FeeType.per_kb_rate need = (λ h. ground arith, λ h. ground arith)
check_withdraw_limits_lem s r FeeType.fixed need = (λ h. ground arith, λ h. ground arith)

-- The parts of a sequence of outcomes that gives a result.
bind_outcome-result :
    {A B : Type 0} (r : Outcome A) (f : A → Outcome B) {b : B}
    → bind_outcome r f ≡ ok b
    → (a : A) × (r ≡ ok a) × (f a ≡ ok b)
bind_outcome-result (ok a) f h = (a, refl, h)
bind_outcome-result (Outcome.err e) f h = cc
bind_outcome-result (Outcome.panic p) f h = cc

withdraw_address-chosen :
    (c : Bool) (cold address x : String)
    → withdraw_address c cold address ≡ ok x
    → (x ≢ "") × ((x ≡ address) ⊎ ((address ≡ "") × (c ≡ true) × (x ≡ cold)))
withdraw_address-chosen c cold address x h =
    ground (arith, str_eq_iff address "", str_eq_iff cold "")

limits_checked :
    (s : Settings) (c : Bool) (r : WithdrawRequest) (ft : FeeType) (need : Bool)
    → limits_unless_cold s c r ft ≡ ok need
    → (c ≡ false → WithinLimits s r ft)
      × ((not c && need) ≡ (not c && ltb s.min_withdraw_without_manual_confirmation r.amount))
unfolding check_withdraw_limits
limits_checked s true r ft need h = (λ e. cc, refl)
limits_checked s false r ft need h =
    let k = (check_withdraw_limits_lem s r ft need).0 h in (λ _. k.0, k.1)

parsed :
    (s : Settings) (hot cold : String) (r : WithdrawRequest) (c : Bool) {p : Transaction × Bool}
    → prepare_withdraw s hot cold r c ≡ ok p
    → ((fee_type_from_string r.fee_type).1 ≡ none)
      × (prepare_with_fee_type s hot cold r c (fee_type_from_string r.fee_type).0 ≡ ok p)
unfolding prepare_withdraw
parsed s hot cold r c h = elim (Option-cases (fee_type_from_string r.fee_type).1) [
  | inl e ↦ (e, rw (e, prepare_withdraw) at h)
  | inr (t, e) ↦ cc (rw (e, prepare_withdraw) at h)
]

unless_hot :
    (address hot : String) (t : Transaction) (need : Bool) (tx : Transaction) (hold : Bool)
    → if◌then◌else◌ {A = Outcome (Transaction × Bool)}
        (str_eq address hot)
        (err Monad.to_hot_wallet)
        (ok (t, need))
      ≡ ok (tx, hold)
    → (address ≢ hot) × (t ≡ tx) × (need ≡ hold)
unless_hot address hot t need tx hold h = ground (arith, str_eq_iff address hot)

-- What a request that passes the checks becomes.
pub record Accepted (s : Settings) (hot cold : String) (r : WithdrawRequest) (c : Bool)
    (tx : Transaction) (hold : Bool) : Type 0 where
  pub fee_type_named : fee_type_string tx.fee_type ≡ r.fee_type
  pub not_hot : tx.address ≢ hot
  pub not_empty : tx.address ≢ ""
  pub address_of : (tx.address ≡ r.address) ⊎ ((r.address ≡ "") × (c ≡ true) × (tx.address ≡ cold))
  pub within_limits : c ≡ false → WithinLimits s r tx.fee_type
  pub held : hold ≡ (not c && ltb s.min_withdraw_without_manual_confirmation r.amount)
  pub amount_of : tx.amount ≡ r.amount
  pub id_of : tx.id ≡ r.id

pub prepare_withdraw-Accepted :
    (s : Settings) (hot cold : String) (r : WithdrawRequest) (c : Bool) (tx : Transaction)
    (hold : Bool)
    → prepare_withdraw s hot cold r c ≡ ok (tx, hold)
    → Accepted s hot cold r c tx hold
unfolding prepare_with_fee_type
prepare_withdraw-Accepted s hot cold r c tx hold h =
    let ft = (fee_type_from_string r.fee_type).0 in
    let (e, k) = parsed s hot cold r c h in
    let (need, l, k1) = bind_outcome-result (limits_unless_cold s c r ft) _ k in
    let (address, g, k2) = bind_outcome-result (withdraw_address c cold r.address) _ k1 in
    let (within, hold_eq) = limits_checked s c r ft need l in
    let (filled, chosen) = withdraw_address-chosen c cold r.address address g in
    let (other, same_tx, same_hold) = unless_hot address hot _ _ tx hold k2 in
    record {
      fee_type_named = rw (← same_tx) ((fee_type_names r.fee_type ft).0 (λ i. (ft, e i)));
      not_hot = rw (← same_tx) other;
      not_empty = rw (← same_tx) filled;
      address_of = rw (← same_tx) chosen;
      within_limits = rw (← same_tx) within;
      held = sym same_hold ∙ hold_eq;
      amount_of = rw (← same_tx) refl;
      id_of = rw (← same_tx) refl;
    }
