-- ===== src/Bitcoin/NodeApi/FixedFee.antt =====
-- The fee of a transaction that transformTxToSetFixedFee of bitcoin/nodeapi/rpc.go has changed.
use bitcoin_processing.Base.{
  ◌≡◌, refl, ap, ◌∙◌, ℕ, zero, suc, ◌≤◌, ◌^◌, ◌==◌, not, String, Bool, true, false, Option, none,
  some, List, [], ◌∷◌, length, get_elem?, All, arith, if◌then◌else◌,
}
use bitcoin_processing.Base.Int.{
  ℤ, pos, pos_part, neg_part, ◌+ℤ◌, ◌-ℤ◌, add64-eq, sub64-eq, to_int64-small, one_sign, int_laws,
}
use bitcoin_processing.Monad
use bitcoin_processing.Monad.{Outcome, ok, err, panic, M}
use bitcoin_processing.Bitcoin.NodeApi.{
  Amounts, TransactionOutput, TxRawResult, FundRawTransactionResult, and_then, recipient_pos,
  expected_output_number, check_address, set_value, output_or_panic, fixed_value,
  transform_tx_to_set_fixed_fee,
}

-- What btcutil documents: amounts, up to the size of 2^50 satoshi (about 11 million BTC), are
-- rounded back from their floats. `satoshi` is the number that a float is rounded to.
pub record AmountLaws {F : Type 0} (f : Amounts F) : Type 0 where
  pub satoshi : F → ℤ
  pub new_amount_ok : (x : F) (n : ℤ) → f.new_amount x ≡ ok n → n ≡ satoshi x
  pub satoshi_to_btc :
      (n : ℤ) → pos_part n ≤ 2 ^ 50 → neg_part n ≤ 2 ^ 50 → satoshi (f.to_btc n) ≡ n

-- An amount of at most 2^48 satoshi.
abbrev pub Moderate : ℤ → Type 0
Moderate n = (pos_part n ≤ 2 ^ 48) × (neg_part n ≤ 2 ^ 48)

-- The change of a value in int64, without wrap-around.
fixed_value-eq :
    (amount auto_fee : ℤ) (fixed_fee : ℕ)
    → Moderate amount
    → Moderate auto_fee
    → fixed_fee ≤ 2 ^ 48
    → fixed_value amount fixed_fee auto_fee ≡ (amount -ℤ pos fixed_fee) +ℤ auto_fee
fixed_value-eq amount auto_fee fixed_fee a b c =
    rw
      (
        to_int64-small fixed_fee (omega arith),
        sub64-eq amount (pos fixed_fee) (omega (int_laws, one_sign (amount -ℤ pos fixed_fee))),
        add64-eq (amount -ℤ pos fixed_fee) auto_fee
            (omega (int_laws, one_sign ((amount -ℤ pos fixed_fee) +ℤ auto_fee))),
      )
      refl

module _ {F : Type 0} (f : Amounts F) (laws : AmountLaws f) where
  abbrev pub total : List (TransactionOutput F) → ℤ
  total [] = pos 0
  total (o ∷ os) = laws.satoshi o.value +ℤ total os

  total_set :
      (i : ℕ) (v : F) (os : List (TransactionOutput F)) (o : TransactionOutput F)
      → get_elem? os i ≡ some o
      → total (set_value f i v os) ≡ (total os -ℤ laws.satoshi o.value) +ℤ laws.satoshi v
  total_set i v [] o h = cc
  total_set zero v (p ∷ os) o h = let same : p ≡ o = cc in rw (← same) (omega int_laws)
  total_set (suc i) v (p ∷ os) o h = rw (total_set i v os o h) (omega int_laws)

  and_then-result :
      {A B : Type 0} (r : Outcome A) {g : A → Outcome B} {b : B}
      → and_then r g ≡ ok b
      → (a : A) × (r ≡ ok a) × (g a ≡ ok b)
  and_then-result (ok a) h = (a, refl, h)
  and_then-result (err e) h = cc
  and_then-result (panic p) h = cc

  chosen_output :
      (o : Option (TransactionOutput F)) (out : TransactionOutput F)
      → output_or_panic f o ≡ ok out
      → o ≡ some out
  chosen_output none out h = cc
  chosen_output (some o) out h = let same : o ≡ out = cc in ap some same

  All-get_elem? :
      (P : TransactionOutput F → Type 0) (os : List (TransactionOutput F)) (i : ℕ)
      (o : TransactionOutput F)
      → All P os
      → get_elem? os i ≡ some o
      → P o
  All-get_elem? P [] i o h e = cc
  All-get_elem? P (p ∷ os) zero o h e = let same : p ≡ o = cc in rw same at h.0
  All-get_elem? P (p ∷ os) (suc i) o h e = All-get_elem? P os i o h.1 e

  behind_test :
      {A : Type 0} (b : Bool) (e : Monad.Error) {r : Outcome A} {a : A}
      → (if not b then err e else r) ≡ ok a
      → r ≡ ok a
  behind_test true e h = h
  behind_test false e h = cc

  -- What a transformed transaction is: the output chosen has a new value.
  transformed :
      (tx tx' : TxRawResult F) (funded : FundRawTransactionResult F) (address : String)
      (fixed_fee : ℕ) (auto_fee : ℤ)
      → f.new_amount funded.fee ≡ ok auto_fee
      → transform_tx_to_set_fixed_fee f tx funded address fixed_fee ≡ ok tx'
      → (out : TransactionOutput F) × (get_elem? tx.vout (recipient_pos funded.change_pos)
          ≡ some out)
        × (tx' ≡ (record tx {
          vout =
              set_value f
                (recipient_pos funded.change_pos)
                (f.to_btc (fixed_value (laws.satoshi out.value) fixed_fee auto_fee))
                tx.vout;
        }))
  unfolding transform_tx_to_set_fixed_fee
  transformed tx tx' funded address fixed_fee auto_fee a h =
      let (auto, a', h1) = and_then-result (f.new_amount funded.fee) h in
      let count = length tx.vout == expected_output_number funded.change_pos in
      let (out, o, h2) =
        and_then-result (output_or_panic f (get_elem? tx.vout (recipient_pos funded.change_pos)))
          (behind_test count _ h1) in
      let (u, c, h3) = and_then-result (check_address address out.addresses) h2 in
      let (amount, v, h4) = and_then-result (f.new_amount out.value) h3 in
      let same_fee : auto ≡ auto_fee = cc in
      let same_amount : amount ≡ laws.satoshi out.value = laws.new_amount_ok out.value amount v in
      let result : ok (record tx {
        vout =
            set_value f (recipient_pos funded.change_pos)
              (f.to_btc (fixed_value (laws.satoshi out.value) fixed_fee auto_fee)) tx.vout;
      })
          ≡ ok tx' =
        rw (same_fee, same_amount) at h4 in
      (out, chosen_output (get_elem? tx.vout (recipient_pos funded.change_pos)) out o, cc)

  -- The fee of a transaction is what its inputs are worth beyond its outputs. Where the node funded
  -- a transaction so that its inputs pay for the outputs and the fee that the node chose, and it
  -- could be transformed, the transformed transaction has the same inputs and its fee is exactly
  -- the fixed fee asked for. The outputs, the node's fee and the fixed fee are at most 2^48
  -- satoshi, so that no conversion of an amount loses satoshi.
  pub transform_tx_to_set_fixed_fee_pays :
      (tx tx' : TxRawResult F) (funded : FundRawTransactionResult F) (address : String)
      (fixed_fee : ℕ) (auto_fee inputs : ℤ)
      → f.new_amount funded.fee ≡ ok auto_fee
      → inputs ≡ total tx.vout +ℤ auto_fee
      → All (λ o. Moderate (laws.satoshi o.value)) tx.vout
      → Moderate auto_fee
      → fixed_fee ≤ 2 ^ 48
      → transform_tx_to_set_fixed_fee f tx funded address fixed_fee ≡ ok tx'
      → (tx'.vin ≡ tx.vin) × (inputs -ℤ total tx'.vout ≡ pos fixed_fee)
  transform_tx_to_set_fixed_fee_pays tx tx' funded address fixed_fee auto_fee inputs a i m n k h =
      let (out, o, same) = transformed tx tx' funded address fixed_fee auto_fee a h in
      let place = recipient_pos funded.change_pos in
      let amount = laws.satoshi out.value in
      let moderate = All-get_elem? (λ o. Moderate (laws.satoshi o.value)) tx.vout place out m o in
      let value = fixed_value amount fixed_fee auto_fee in
      let plain = fixed_value-eq amount auto_fee fixed_fee moderate n k in
      let sign = one_sign ((amount -ℤ pos fixed_fee) +ℤ auto_fee) in
      let rounded : laws.satoshi (f.to_btc value) ≡ value =
        laws.satoshi_to_btc value (rw plain (omega (int_laws, sign)))
          (rw plain (omega (int_laws, sign))) in
      let sum : total tx'.vout
          ≡ (total tx.vout -ℤ amount) +ℤ ((amount -ℤ pos fixed_fee) +ℤ auto_fee) =
        ap (λ t. total t.vout) same
        ∙ total_set place (f.to_btc value) tx.vout out o
        ∙ ap (λ z. (total tx.vout -ℤ amount) +ℤ z) (rounded ∙ plain) in
      (ap (λ t. t.vin) same, rw (i, sum) (omega int_laws))
