-- ===== src/Bitcoin/NodeApi/Tests.antt =====
-- The theorems on the node client at floats that are numbers of satoshi.
use bitcoin_processing.Base.{◌≡◌, refl, ℕ, String, [], ◌∷◌, arith}
use bitcoin_processing.Base.Int.{ℤ, pos, ◌+ℤ◌, ◌-ℤ◌, add64, sub64, to_int64, to_uint64, int_laws}
use bitcoin_processing.Monad
use bitcoin_processing.Monad.{Outcome, ok, err, pure, fail}
use bitcoin_processing.Bitcoin.NodeApi.{
  Amounts, Rpc, TransactionOutput, TxRawResult, FundRawTransactionResult, final_outputs,
  transform_tx_to_set_fixed_fee,
}
use bitcoin_processing.Bitcoin.NodeApi.FixedFee.{
  AmountLaws, total, transform_tx_to_set_fixed_fee_pays,
}

abbrev amounts : Amounts ℤ
amounts = record { btc_amount_to_btc = λ n. pos n; to_btc = λ n. n; new_amount = λ x. ok x }

same_satoshi : (x n : ℤ) → ok x ≡ ok n → n ≡ x
same_satoshi x n h = cc

abbrev laws : AmountLaws amounts
laws = record { satoshi = λ x. x; new_amount_ok = same_satoshi; satoshi_to_btc = λ n a b. refl }

abbrev output : String → ℕ → TransactionOutput ℤ
output address n = record { value = pos n; addresses = address ∷ [] }

-- Inputs of 1000 pay 300 of change, 690 to the recipient, and the node's fee of 10.
abbrev funded : FundRawTransactionResult ℤ
funded = record { change_pos = pos 0; fee = pos 10; hex = "hex" }

abbrev decoded : TxRawResult ℤ
decoded = record { vin = []; vout = output "change" 300 ∷ output "address" 690 ∷ [] }

abbrev changed : TxRawResult ℤ
changed = record { vin = []; vout = output "change" 300 ∷ output "address" 650 ∷ [] }

transform_tx_to_set_fixed_fee_pays_example :
    (changed.vin ≡ decoded.vin) × (pos 1000 -ℤ total amounts laws changed.vout ≡ pos 50)
unfolding transform_tx_to_set_fixed_fee ◌+ℤ◌ ◌-ℤ◌ add64 sub64 to_int64 to_uint64
transform_tx_to_set_fixed_fee_pays_example =
    transform_tx_to_set_fixed_fee_pays amounts laws decoded changed funded "address" 50 (pos 10)
      (pos 1000) refl (omega int_laws)
      ((omega arith, omega arith), ((omega arith, omega arith), tt)) (omega arith, omega arith)
      (omega arith) refl

-- Two outputs to one address are sent as one, with the value of the last.
outputs_to_one_address :
    final_outputs amounts (output "address" 300 ∷ output "address" 690 ∷ []) []
    ≡ ok (("address", pos 690) ∷ [])
outputs_to_one_address = refl

-- A node that answers nothing.
abbrev rpc : Rpc ℕ ℤ
rpc = record {
  get_new_address = fail (Monad.external "no answer");
  send_to_address_call = λ a v r. fail (Monad.external "no answer");
  create_raw_transaction_call = λ i o. fail (Monad.external "no answer");
  fund_raw_transaction_call = λ t o. fail (Monad.external "no answer");
  decode_raw_transaction = λ t. fail (Monad.external "no answer");
  sign_raw_transaction_call = λ t. fail (Monad.external "no answer");
  send_raw_transaction_call = λ t. fail (Monad.external "no answer");
  get_address_info_call = λ a. fail (Monad.external "no answer");
  get_unconfirmed_balance_call = fail (Monad.external "no answer");
  get_balance_call = fail (Monad.external "no answer");
  set_tx_fee = λ n. fail (Monad.external "no answer");
  new_hash_from_str = λ s. ok s;
  list_since_block = λ h. fail (Monad.external "no answer");
  get_transaction_call = λ h. fail (Monad.external "no answer");
}
