-- ===== src/Bitcoin/NodeApi/Transport/Requests.antt =====
-- Which requests the methods of bitcoin/nodeapi/rpc.go make of the node, and in which order.
use bitcoin_processing.Base.{
  ℕ, ◌+◌, ◌%◌, ◌^◌, ltb, String, Bool, true, false, List, [], ◌∷◌, Bool-cases, inl, inr,
}
use bitcoin_processing.Monad.{M, lift}
use bitcoin_processing.Bitcoin.NodeApi.{
  Amounts, Rpc, TransactionInput, TxRawResult, FundRawTransactionResult, Reply, result_or_error,
  replied, fund_options, create_raw_transaction, final_outputs, transform_tx_to_set_fixed_fee,
  encode_transformed_transaction, transform_funded, send_funded, sign_and_send, send_transformed,
  send_with_fee_fixed, fund_and_send, send_with_fixed_fee,
}
use bitcoin_processing.Bitcoin.NodeApi.Transport.{NodeConnection, Http, RpcClient, node_rpc}
use bitcoin_processing.Bitcoin.NodeApi.Transport.Recorded.{
  Recorded, recorded_http, recorded_client, Requested, Requests, Requests->>=, Requests-lift,
  Requests-by_call, Requests-fail, Requests-call, Requests-call_pointer,
}

-- The requests of a payment with a fixed fee.
abbrev pub fixed_fee_methods : List String
fixed_fee_methods =
    "createrawtransaction" ∷ "fundrawtransaction" ∷ "decoderawtransaction" ∷ "createrawtransaction"
    ∷ "signrawtransactionwithwallet" ∷ "sendrawtransaction" ∷ []

module _ {N F : Type 0} (n : NodeConnection) (h : Http N F) where
  module _ (f : Amounts F) (c : RpcClient N F) where
    -- The calls of the node, with its requests recorded.
    abbrev pub recorded_rpc : Rpc (Recorded N) F
    recorded_rpc = node_rpc n (recorded_http h) (recorded_client c)

    Requests-replied :
        {A : Type 0} (m : M (Recorded N) (Reply A)) (method : String)
        → Requests n h m (method ∷ [])
        → Requests n h (replied f recorded_rpc m) (method ∷ [])
    Requests-replied m method s =
        Requests->>= n h m (λ r. lift (result_or_error r)) (method ∷ []) [] s
          (λ r. Requests-lift n h (result_or_error r))

    Requests-create :
        (is : List TransactionInput) (os : List (String × F))
        → Requests n h (create_raw_transaction f recorded_rpc is os) ("createrawtransaction" ∷ [])
    unfolding node_rpc
    Requests-create is os =
        Requests-replied (recorded_rpc.create_raw_transaction_call is os) "createrawtransaction"
          (Requests-call n h h.unmarshal_string "createrawtransaction" _)

    Requests-transform :
        (funded : FundRawTransactionResult F) (address : String) (fee : ℕ)
        → Requests n h
            (transform_funded f recorded_rpc funded address fee)
            ("decoderawtransaction" ∷ [])
    unfolding node_rpc
    Requests-transform funded address fee =
        Requests->>= n h (recorded_rpc.decode_raw_transaction funded.hex) _
          ("decoderawtransaction" ∷ []) []
          (Requests->>= n h (lift (c.decode_hex funded.hex)) _ [] ("decoderawtransaction" ∷ [])
            (Requests-lift n h (c.decode_hex funded.hex))
            (λ hex. Requests-by_call n h "decoderawtransaction" (c.decode_raw_transaction hex)))
          (λ tx. Requests-lift n h (transform_tx_to_set_fixed_fee f tx funded address fee))

    Requests-encode :
        (tx : TxRawResult F)
        → Requests n h
            (encode_transformed_transaction f recorded_rpc tx)
            ("createrawtransaction" ∷ [])
    Requests-encode tx =
        Requests->>= n h (lift (final_outputs f tx.vout []))
          (λ outputs. create_raw_transaction f recorded_rpc tx.vin outputs) []
          ("createrawtransaction" ∷ []) (Requests-lift n h (final_outputs f tx.vout []))
          (λ outputs. Requests-create tx.vin outputs)

    Requests-send :
        (encoded : String)
        → Requests n h
            (sign_and_send f recorded_rpc encoded)
            ("signrawtransactionwithwallet" ∷ "sendrawtransaction" ∷ [])
    unfolding node_rpc
    Requests-send encoded =
        Requests->>= n h (replied f recorded_rpc (recorded_rpc.sign_raw_transaction_call encoded))
          (λ signed. replied f recorded_rpc (recorded_rpc.send_raw_transaction_call signed))
          ("signrawtransactionwithwallet" ∷ []) ("sendrawtransaction" ∷ [])
          (Requests-replied (recorded_rpc.sign_raw_transaction_call encoded)
            "signrawtransactionwithwallet"
            (Requests-call_pointer n h h.unmarshal_signed "signrawtransactionwithwallet" _))
          (λ signed.
            Requests-replied (recorded_rpc.send_raw_transaction_call signed) "sendrawtransaction"
              (Requests-call n h h.unmarshal_string "sendrawtransaction" _))

    Requests-finish :
        (address : String) (fee : ℕ) (funded : FundRawTransactionResult F)
        → Requests n h (send_with_fee_fixed f recorded_rpc address fee funded) (
            "decoderawtransaction" ∷ "createrawtransaction" ∷ "signrawtransactionwithwallet"
            ∷ "sendrawtransaction" ∷ [])
    Requests-finish address fee funded =
        Requests->>= n h (transform_funded f recorded_rpc funded address fee)
          (send_transformed f recorded_rpc) ("decoderawtransaction" ∷ []) _
          (Requests-transform funded address fee)
          λ tx.
            Requests->>= n h (encode_transformed_transaction f recorded_rpc tx)
              (sign_and_send f recorded_rpc) ("createrawtransaction" ∷ []) _ (Requests-encode tx)
              Requests-send

    Requests-send_funded :
        (address : String) (amount fee : ℕ)
        → Requests n h (send_funded f recorded_rpc address amount fee) fixed_fee_methods
    unfolding node_rpc
    Requests-send_funded address amount fee =
        Requests->>= n h
          (create_raw_transaction f recorded_rpc [] ((address, f.btc_amount_to_btc amount) ∷ []))
          (fund_and_send f recorded_rpc address fee) ("createrawtransaction" ∷ []) _
          (Requests-create [] ((address, f.btc_amount_to_btc amount) ∷ []))
          λ raw.
            Requests->>= n h
              (replied f recorded_rpc
                (recorded_rpc.fund_raw_transaction_call raw (fund_options f recorded_rpc)))
              (send_with_fee_fixed f recorded_rpc address fee) ("fundrawtransaction" ∷ []) _
              (Requests-replied
                (recorded_rpc.fund_raw_transaction_call raw (fund_options f recorded_rpc))
                "fundrawtransaction"
                (Requests-call_pointer n h h.unmarshal_funded "fundrawtransaction" _))
              (Requests-finish address fee)

    Requests-send_with_fixed_fee :
        (address : String) (amount fee : ℕ) (recipient_pays_fee : Bool)
        → Requests n h
            (send_with_fixed_fee f recorded_rpc address amount fee recipient_pays_fee)
            fixed_fee_methods
    unfolding send_with_fixed_fee
    Requests-send_with_fixed_fee address amount fee false =
        Requests-send_funded address ((amount + fee) % 2 ^ 64) fee
    Requests-send_with_fixed_fee address amount fee true = elim (Bool-cases (ltb amount fee)) [
      | inl e ↦ rw e (Requests-fail n h _ fixed_fee_methods)
      | inr e ↦ rw e (Requests-send_funded address amount fee)
    ]

    -- What SendWithFixedFee requests of the node, by itself and by rpcclient: to create a
    -- transaction, to fund it, to decode it, to create the one with the fixed fee, to sign it and
    -- to send it, one request for each, in this order and no other. It returns a hash only after
    -- all six; however else it ends, it made a beginning of them. So it asks for one transaction to
    -- be sent at most.
    pub send_with_fixed_fee_requests :
        (address : String) (amount fee : ℕ) (recipient_pays_fee : Bool) (w : Recorded N)
        → Requested n h fixed_fee_methods w
            (send_with_fixed_fee f recorded_rpc address amount fee recipient_pays_fee w)
    send_with_fixed_fee_requests address amount fee recipient_pays_fee w =
        (Requests-send_with_fixed_fee address amount fee recipient_pays_fee).requested w
