-- ===== src/Bitcoin/NodeApi/Transport.antt =====
-- bitcoin/nodeapi/rpc.go: the requests to the node. The HTTP client, encoding/json, the library
-- rpcclient and the decoding of hexadecimal digits are parameters.
pub mod Recorded
pub mod Requests
mod Tests
use Prim.Native.String.{◌++◌ as and_text}
use bitcoin_processing.Base.{
  ℕ, String, str_eq, Bool, true, false, Option, none, some, List, [], ◌∷◌, if◌then◌else◌,
}
use bitcoin_processing.Base.Int.{ℤ}
use bitcoin_processing.Types.Transaction.{ListTransactionsResult, GetTransactionResult}
use bitcoin_processing.Monad
use bitcoin_processing.Monad.{Outcome, ok, err, panic, M, fail, lift, pure, throw, ◌>>=◌, ◌>>◌}
use bitcoin_processing.Bitcoin.Formats.{Decimals, to_stringed_float}
use bitcoin_processing.Bitcoin.NodeApi.{
  TransactionInput, TxRawResult, FundRawTransactionResult, FundRawTransactionOptions, Reply, Rpc,
  result_or_error,
}

-- What the program puts into the parameters of a request. A map is a list with one entry for a key;
-- the amounts of `amount_spec` are texts that stand for JSON numbers.
pub data Param (F : Type 0) : Type 0 where
  text : String → Param F
  amount : F → Param F
  flag : Bool → Param F
  inputs : List TransactionInput → Param F
  outputs : List (String × F) → Param F
  options : FundRawTransactionOptions F → Param F
  amount_spec : List (String × String) → Param F

-- No parameters (`nil`), those of jsonRPCRequest, or those of jsonRPCRequestWithNamedParams.
pub data Params (F : Type 0) : Type 0 where
  no_params : Params F
  positional : List (Param F) → Params F
  named_params : List (String × Param F) → Params F

pub record JsonRpcRequest (F : Type 0) : Type 0 where
  pub json_rpc_version : String
  pub method : String
  pub params : Params F

pub record HttpRequest : Type 0 where
  pub http_method : String
  pub url : String
  pub content_type : String
  pub user : String
  pub pass : String
  pub body : String

-- The fields of bitcoinNodeRPCAPI, but for the lock and the client of rpcclient.
pub record NodeConnection : Type 0 where
  pub address : String
  pub node_url : String
  pub user : String
  pub pass : String
  pub use_tls : Bool

-- `new_request` says whether http.NewRequest takes the URL. `do_request` sends a request; what it
-- gives is the body of the answer as ioutil.ReadAll reads it. A result is `none` where the answer
-- has a nil pointer. The functions `unmarshal` are json.Unmarshal into the response of each call.
pub record Http (N F : Type 0) : Type 0 where
  pub marshal : JsonRpcRequest F → Outcome String
  pub new_request : HttpRequest → Outcome (Unit {0})
  pub do_request : HttpRequest → M N (Outcome String)
  pub unmarshal_string : String → Outcome (Reply String)
  pub unmarshal_funded : String → Outcome (Reply (Option (FundRawTransactionResult F)))
  pub unmarshal_signed : String → Outcome (Reply (Option String))
  pub unmarshal_address_info : String → Outcome (Reply (Option Bool))
  pub unmarshal_unconfirmed : String → Outcome (Reply (Option F))
  pub unmarshal_error : String → Outcome (Reply (Unit {0}))

-- The calls of rpcclient and of chainhash, and hex.DecodeString.
pub record RpcClient (N F : Type 0) : Type 0 where
  pub decode_raw_transaction : String → M N (TxRawResult F)
  pub get_balance : M N ℤ
  pub set_tx_fee : ℤ → M N (Unit {0})
  pub new_hash_from_str : String → Outcome String
  pub list_since_block : Option String → M N (List ListTransactionsResult × String)
  pub get_transaction : String → M N GetTransactionResult
  pub get_transaction_hex : String → M N String
  pub decode_hex : String → Outcome String

-- A result behind a pointer that is read at once.
abbrev pub reply_or_panic : {A : Type 0} → Reply (Option A) → Outcome (Reply A)
reply_or_panic (none, none) = panic Monad.nil_pointer
reply_or_panic (none, some message) = err (Monad.rpc_error message)
reply_or_panic (some a, e) = ok (a, e)

module _ {N F : Type 0} (n : NodeConnection) (h : Http N F) where
  abbrev pub http_request : String → HttpRequest
  http_request body = record {
    http_method = "POST";
    url = n.node_url;
    content_type = "application/json";
    user = n.user;
    pass = n.pass;
    body = body;
  }

  -- Posts a body that is marshaled, and reads the answer.
  abbrev pub post : String → M N String
  post body =
      lift (h.new_request (http_request body)) >>= λ _. h.do_request (http_request body) >>= lift

  -- `SendRequestToNode` and `SendRequestToNodeWithNamedParams`.
  unfoldable pub send_request_to_node : String → Params F → M N String
  send_request_to_node method params =
      lift (h.marshal (record { json_rpc_version = "1.0"; method = method; params = params }))
      >>= post

  abbrev pub call : {A : Type 0} → (String → Outcome A) → String → Params F → M N A
  call unmarshal method params =
      send_request_to_node method params >>= λ answer. lift (unmarshal answer)

  abbrev pub call_pointer :
      {A : Type 0} → (String → Outcome (Reply (Option A))) → String → Params F → M N (Reply A)
  call_pointer unmarshal method params =
      call unmarshal method params >>= λ r. lift (reply_or_panic r)

  unfoldable pub create_wallet : String → M N (Unit {0})
  create_wallet name =
      call h.unmarshal_error "createwallet"
        (named_params (("wallet_name", text name) ∷ ("load_on_startup", flag true) ∷ []))
      >>= λ r. lift (result_or_error r)

  abbrev pub amount_spec_of :
      {D : Type 0} → Decimals D F → List (String × ℕ) → List (String × String)
  amount_spec_of l [] = []
  amount_spec_of l ((address, a) ∷ addresses) =
      (address, to_stringed_float l a) ∷ amount_spec_of l addresses

  -- The addresses are those of a map, so no two are the same.
  unfoldable pub send_to_multiple_addresses :
      {D : Type 0} → Decimals D F → List (String × ℕ) → M N String
  send_to_multiple_addresses l [] = fail (Monad.external "empty list of addresses")
  send_to_multiple_addresses l (a ∷ addresses) =
      call h.unmarshal_string "sendmany"
        (positional (text "" ∷ amount_spec (amount_spec_of l (a ∷ addresses)) ∷ []))
      >>= λ r. lift (result_or_error r)

  module _ (c : RpcClient N F) where
    abbrev pub decode_raw_transaction : String → M N (TxRawResult F)
    decode_raw_transaction hex = lift (c.decode_hex hex) >>= c.decode_raw_transaction

    -- `GetRawTransaction`
    unfoldable pub get_raw_transaction : String → M N (TxRawResult F)
    get_raw_transaction hash = do
      h ← lift (c.new_hash_from_str hash)
      hex ← c.get_transaction_hex h
      decode_raw_transaction hex

    -- The calls of the node, by their requests.
    unfoldable pub node_rpc : Rpc N F
    node_rpc = record {
      get_new_address = call h.unmarshal_string "getnewaddress" no_params;
      send_to_address_call = λ address value recipient_pays_fee.
          call h.unmarshal_string "sendtoaddress" (
            positional
              (text address ∷ amount value ∷ text "" ∷ text "" ∷ flag recipient_pays_fee ∷ []));
      create_raw_transaction_call = λ is os.
          call h.unmarshal_string "createrawtransaction" (positional (inputs is ∷ outputs os ∷ []));
      fund_raw_transaction_call = λ raw o.
          call_pointer h.unmarshal_funded "fundrawtransaction"
            (positional (text raw ∷ options o ∷ []));
      decode_raw_transaction = decode_raw_transaction;
      sign_raw_transaction_call = λ raw.
          call_pointer h.unmarshal_signed "signrawtransactionwithwallet"
            (positional (text raw ∷ []));
      send_raw_transaction_call =
          λ raw. call h.unmarshal_string "sendrawtransaction" (positional (text raw ∷ []));
      get_address_info_call = λ address.
          call_pointer h.unmarshal_address_info "getaddressinfo" (positional (text address ∷ []));
      get_unconfirmed_balance_call =
          call_pointer h.unmarshal_unconfirmed "getunconfirmedbalance" no_params;
      get_balance_call = c.get_balance;
      set_tx_fee = c.set_tx_fee;
      new_hash_from_str = c.new_hash_from_str;
      list_since_block = c.list_since_block;
      get_transaction_call = c.get_transaction;
    }

-- What NewNodeAPI reads from the settings; the first three end the process where they are empty.
pub record NodeSettings : Type 0 where
  pub address : Outcome String
  pub user : Outcome String
  pub password : Outcome String
  pub tls : Bool

-- rpcclient.ConnConfig, and what makes a client of it and asks it for the number of blocks.
pub record ConnConfig : Type 0 where
  pub host : String
  pub user : String
  pub pass : String
  pub http_post_mode : Bool
  pub disable_tls : Bool

abbrev pub or_panic : {A : Type 0} → Outcome A → Outcome A
or_panic (err e) = panic (Monad.failed e)
or_panic r = r

module _ {N F : Type 0} (new_client : ConnConfig → Outcome (RpcClient N F))
    (get_block_count : RpcClient N F → M N ℕ) where
  unfoldable pub new_node_api : NodeSettings → M N (NodeConnection × RpcClient N F)
  new_node_api s = do
    host ← lift s.address
    user ← lift s.user
    pass ← lift s.password
    client ← lift (
        or_panic (
          new_client (record {
            host = host;
            user = user;
            pass = pass;
            http_post_mode = true;
            disable_tls = if s.tls then false else true;
          })))
    λ w. let (r, w') = get_block_count client w in (or_panic r, w')
    pure (
      record {
        address = host;
        node_url =
            and_text (if s.tls then "https" else "http") (and_text "://" (and_text host "/"));
        user = user;
        pass = pass;
        use_tls = s.tls;
      },
      client,
    )
