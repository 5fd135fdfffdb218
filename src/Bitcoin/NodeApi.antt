-- ===== src/Bitcoin/NodeApi.antt =====
-- bitcoin/nodeapi/rpc.go: the client of the Bitcoin node, over its calls, which are a parameter
-- here (Transport builds them from HTTP requests and the calls of the library rpcclient). Amounts
-- go to the node as floats, whose conversions (btcutil) are parameters too.
pub mod FixedFee
pub mod Transport
mod Tests
use bitcoin_processing.Base.{
  ℕ, zero, suc, ◌+◌, ◌%◌, ◌^◌, ◌==◌, ltb, String, str_eq, Bool, true, false, not, ◌&&◌, Option,
  none, some, List, [], ◌∷◌, length, get_elem?, if◌then◌else◌,
}
use bitcoin_processing.Base.Int.{ℤ, pos, negsuc, add64, sub64, to_int64, to_uint64}
use bitcoin_processing.Types.Transaction.{ListTransactionsResult, GetTransactionResult}
use bitcoin_processing.Monad
use bitcoin_processing.Monad.{Outcome, ok, err, panic, M, fail, lift, pure, ◌>>=◌, ◌>>◌}
use bitcoin_processing.Wallet.Interfaces.{NodeApi}

-- `BTCAmount.ToBTC` of bitcoin/formats.go (on a decimal library), and `Amount.ToBTC` and
-- `NewAmount` of btcutil.
pub record Amounts (F : Type 0) : Type 0 where
  pub btc_amount_to_btc : ℕ → F
  pub to_btc : ℤ → F
  pub new_amount : F → Outcome ℤ

-- The fields of btcjson.Vin, Vout and TxRawResult that are read.
pub record TransactionInput : Type 0 where
  pub tx_id : String
  pub vout : ℕ

pub record TransactionOutput (F : Type 0) : Type 0 where
  pub value : F
  pub addresses : List String

pub record TxRawResult (F : Type 0) : Type 0 where
  pub vin : List TransactionInput
  pub vout : List (TransactionOutput F)

pub record FundRawTransactionResult (F : Type 0) : Type 0 where
  pub change_pos : ℤ
  pub fee : F
  pub hex : String

pub record FundRawTransactionOptions (F : Type 0) : Type 0 where
  pub change_position : ℕ
  pub fee_rate : F
  pub subtract_fee_from_outputs : List ℕ

-- An answer: the result, and the message of JSONRPCError where the node reports one.
abbrev pub Reply : Type 0 → Type 0
Reply A = A × Option String

-- SendRequestToNode with each method, its answer unmarshaled; and the calls of rpcclient. A map of
-- outputs is a list with one entry for an address.
pub record Rpc (N F : Type 0) : Type 0 where
  pub get_new_address : M N (Reply String)
  pub send_to_address_call : String → F → Bool → M N (Reply String)
  pub create_raw_transaction_call : List TransactionInput → List (String × F) → M N (Reply String)
  pub fund_raw_transaction_call :
      String → FundRawTransactionOptions F → M N (Reply (FundRawTransactionResult F))
  pub decode_raw_transaction : String → M N (TxRawResult F)
  pub sign_raw_transaction_call : String → M N (Reply String)
  pub send_raw_transaction_call : String → M N (Reply String)
  pub get_address_info_call : String → M N (Reply Bool)
  pub get_unconfirmed_balance_call : M N (Reply F)
  pub get_balance_call : M N ℤ
  pub set_tx_fee : ℤ → M N (Unit {0})
  pub new_hash_from_str : String → Outcome String
  pub list_since_block : Option String → M N (List ListTransactionsResult × String)
  pub get_transaction_call : String → M N GetTransactionResult

abbrev pub result_or_error : {A : Type 0} → Reply A → Outcome A
result_or_error (a, none) = ok a
result_or_error (a, some message) = err (Monad.rpc_error message)

abbrev pub and_then : {A B : Type 0} → Outcome A → (A → Outcome B) → Outcome B
and_then (ok a) f = f a
and_then (err e) f = err e
and_then (panic p) f = panic p

-- Change at position 0 (as asked) puts the recipient at 1; no change (-1), or change elsewhere,
-- puts it at 0.
abbrev pub recipient_pos : ℤ → ℕ
recipient_pos (pos zero) = 1
recipient_pos _ = 0

abbrev pub expected_output_number : ℤ → ℕ
expected_output_number (negsuc zero) = 1
expected_output_number _ = 2

-- The output must have one address, the destination.
abbrev pub check_address : String → List String → Outcome (Unit {0})
check_address address (a ∷ []) =
    if str_eq a address then ok tt else err (Monad.external "another address")
check_address address _ = err (Monad.external "not one address")

-- The value of the recipient's output: the library's fee is given back, the fixed one taken.
abbrev pub fixed_value : ℤ → ℕ → ℤ → ℤ
fixed_value amount fixed_fee auto_fee = add64 (sub64 amount (to_int64 fixed_fee)) auto_fee

module _ {F : Type 0} (f : Amounts F) where
  abbrev pub set_value : ℕ → F → List (TransactionOutput F) → List (TransactionOutput F)
  set_value i v [] = []
  set_value zero v (o ∷ os) = record o { value = v } ∷ os
  set_value (suc i) v (o ∷ os) = o ∷ set_value i v os

  abbrev pub output_or_panic : Option (TransactionOutput F) → Outcome (TransactionOutput F)
  output_or_panic none = panic Monad.negative_index
  output_or_panic (some o) = ok o

  -- `transformTxToSetFixedFee` behind the decoding.
  unfoldable pub transform_tx_to_set_fixed_fee :
      TxRawResult F → FundRawTransactionResult F → String → ℕ → Outcome (TxRawResult F)
  transform_tx_to_set_fixed_fee tx funded address fixed_fee =
      and_then (f.new_amount funded.fee) λ auto_fee.
        if not (length tx.vout == expected_output_number funded.change_pos)
        then err (Monad.external "unexpected number of outputs")
        else and_then (output_or_panic (get_elem? tx.vout (recipient_pos funded.change_pos))) λ out.
          and_then (check_address address out.addresses) λ _.
            and_then (f.new_amount out.value) λ amount. ok (record tx {
              vout =
                  set_value (recipient_pos funded.change_pos)
                    (f.to_btc (fixed_value amount fixed_fee auto_fee)) tx.vout;
            })

  -- `finalOutputs[address] = value`
  abbrev pub put_output : String → F → List (String × F) → List (String × F)
  put_output address v [] = (address, v) ∷ []
  put_output address v ((a, w) ∷ os) =
      if str_eq a address then (a, v) ∷ os else (a, w) ∷ put_output address v os

  abbrev pub put_single : TransactionOutput F → List (String × F) → Outcome (List (String × F))
  put_single o outputs = elim o.addresses [
    | a ∷ [] ↦ ok (put_output a o.value outputs)
    | _ ↦ err (Monad.external "not one address")
  ]

  -- The loop of encodeTransformedTransaction over the outputs.
  abbrev pub final_outputs :
      List (TransactionOutput F) → List (String × F) → Outcome (List (String × F))
  final_outputs [] outputs = ok outputs
  final_outputs (o ∷ os) outputs = and_then (put_single o outputs) (final_outputs os)

module _ {N F : Type 0} (f : Amounts F) (rpc : Rpc N F) where
  abbrev pub replied : {A : Type 0} → M N (Reply A) → M N A
  replied m = m >>= λ r. lift (result_or_error r)

  abbrev pub create_new_address : M N String
  create_new_address = replied rpc.get_new_address

  abbrev pub create_raw_transaction : List TransactionInput → List (String × F) → M N String
  create_raw_transaction inputs outputs = replied (rpc.create_raw_transaction_call inputs outputs)

  abbrev pub encode_transformed_transaction : TxRawResult F → M N String
  encode_transformed_transaction tx =
      lift (final_outputs f tx.vout []) >>= λ outputs. create_raw_transaction tx.vin outputs

  abbrev pub transform_funded : FundRawTransactionResult F → String → ℕ → M N (TxRawResult F)
  transform_funded funded address fixed_fee = rpc.decode_raw_transaction funded.hex >>= λ tx.
      lift (transform_tx_to_set_fixed_fee f tx funded address fixed_fee)

  abbrev pub fund_options : FundRawTransactionOptions F
  fund_options = record {
    change_position = 0;
    fee_rate = f.to_btc (pos 1000);
    subtract_fee_from_outputs = 0 ∷ [];
  }

  abbrev pub sign_and_send : String → M N String
  sign_and_send encoded = replied (rpc.sign_raw_transaction_call encoded) >>= λ signed.
      replied (rpc.send_raw_transaction_call signed)

  abbrev pub send_transformed : TxRawResult F → M N String
  send_transformed tx = encode_transformed_transaction tx >>= sign_and_send

  abbrev pub send_with_fee_fixed : String → ℕ → FundRawTransactionResult F → M N String
  send_with_fee_fixed address fee funded = transform_funded funded address fee >>= send_transformed

  abbrev pub fund_and_send : String → ℕ → String → M N String
  fund_and_send address fee raw =
      replied (rpc.fund_raw_transaction_call raw fund_options) >>= send_with_fee_fixed address fee

  -- The transaction that pays `amount` to the address, from creating it to sending it.
  abbrev pub send_funded : String → ℕ → ℕ → M N String
  send_funded address amount fee =
      create_raw_transaction [] ((address, f.btc_amount_to_btc amount) ∷ [])
      >>= fund_and_send address fee

  unfoldable pub send_with_fixed_fee : String → ℕ → ℕ → Bool → M N String
  send_with_fixed_fee address amount fee recipient_pays_fee =
      if recipient_pays_fee
      then (if ltb amount fee
          then fail (Monad.external "amount is less than the fee")
          else send_funded address amount fee)
      else send_funded address ((amount + fee) % 2 ^ 64) fee

  abbrev pub send_to_address : String → ℕ → Bool → M N String
  send_to_address address amount recipient_pays_fee =
      replied (rpc.send_to_address_call address (f.to_btc (to_int64 amount)) recipient_pays_fee)

  unfoldable pub send_with_per_kb_fee : String → ℕ → ℕ → Bool → M N String
  send_with_per_kb_fee address amount fee recipient_pays_fee = do
    rpc.set_tx_fee (to_int64 fee)
    send_to_address address amount recipient_pays_fee

  abbrev pub get_balance : M N ℕ
  get_balance = rpc.get_balance_call >>= λ b. pure (to_uint64 b)

  abbrev pub get_unconfirmed_balance : M N ℕ
  get_unconfirmed_balance = replied rpc.get_unconfirmed_balance_call >>= λ b.
      lift (f.new_amount b) >>= λ n. pure (to_uint64 n)

  unfoldable pub get_confirmed_and_unconfirmed_balance : M N (ℕ × ℕ)
  get_confirmed_and_unconfirmed_balance =
      get_balance >>= λ c. get_unconfirmed_balance >>= λ u. pure (c, u)

  abbrev pub list_transactions_since_block : String → M N (List ListTransactionsResult × String)
  list_transactions_since_block block_hash =
      if str_eq block_hash ""
      then rpc.list_since_block none
      else lift (rpc.new_hash_from_str block_hash) >>= λ h. rpc.list_since_block (some h)

  abbrev pub get_transaction : String → M N GetTransactionResult
  get_transaction hash = lift (rpc.new_hash_from_str hash) >>= λ h. rpc.get_transaction_call h

  -- `GetAddressInfo`, of which the wallet reads `IsMine`.
  abbrev pub is_mine : String → M N Bool
  is_mine address = replied (rpc.get_address_info_call address)

  -- The client fills the interface that the wallet is given.
  unfoldable pub node_client : NodeApi N
  node_client = record {
    create_new_address = create_new_address;
    list_transactions_since_block = list_transactions_since_block;
    get_transaction = get_transaction;
    send_with_per_kb_fee = send_with_per_kb_fee;
    send_with_fixed_fee = send_with_fixed_fee;
    is_mine = is_mine;
    get_confirmed_and_unconfirmed_balance = get_confirmed_and_unconfirmed_balance;
  }
