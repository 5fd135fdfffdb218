-- ===== src/Bitcoin/NodeApi/Transport/Tests.antt =====
-- The theorem on requests at a node that answers every request.
use bitcoin_processing.Base.{◌≡◌, refl, ℕ, suc, String, true, false, none, some, [], ◌∷◌, map}
use bitcoin_processing.Base.Int.{ℤ, pos, add64, sub64, to_int64, to_uint64, ◌+ℤ◌, ◌-ℤ◌}
use bitcoin_processing.Monad.{ok, pure}
use bitcoin_processing.Bitcoin.NodeApi.{
  Amounts, TransactionOutput, send_with_fixed_fee, transform_tx_to_set_fixed_fee,
}
use bitcoin_processing.Bitcoin.NodeApi.Transport.{
  NodeConnection, Http, RpcClient, send_request_to_node, node_rpc, new_node_api,
}
use bitcoin_processing.Bitcoin.NodeApi.Transport.Requests.{
  fixed_fee_methods, recorded_rpc, send_with_fixed_fee_requests,
}
use bitcoin_processing.Bitcoin.NodeApi.Transport.Recorded.{
  NodeRequest, posted, by_client, Requested,
}

abbrev connection : NodeConnection
connection = record {
  address = "node";
  node_url = "http://node/";
  user = "user";
  pass = "pass";
  use_tls = false;
}

-- The node counts requests; a body is the name of the method.
abbrev http : Http ℕ ℤ
http = record {
  marshal = λ r. ok r.method;
  new_request = λ r. ok tt;
  do_request = λ r n. (ok (ok "answer"), suc n);
  unmarshal_string = λ b. ok ("hash", none);
  unmarshal_funded =
      λ b. ok (some (record { change_pos = pos 0; fee = pos 10; hex = "hex" }), none);
  unmarshal_signed = λ b. ok (some "signed", none);
  unmarshal_address_info = λ b. ok (some true, none);
  unmarshal_unconfirmed = λ b. ok (some (pos 5), none);
  unmarshal_error = λ b. ok (tt, none);
}

abbrev output : String → ℕ → TransactionOutput ℤ
output address n = record { value = pos n; addresses = address ∷ [] }

abbrev client : RpcClient ℕ ℤ
client = record {
  decode_raw_transaction =
      λ t. pure (record { vin = []; vout = output "change" 300 ∷ output "address" 690 ∷ [] });
  get_balance = pure (pos 7);
  set_tx_fee = λ fee. pure tt;
  new_hash_from_str = λ s. ok s;
  list_since_block = λ b. pure ([], "");
  get_transaction = λ t. pure (record { tx_id = t; block_hash = ""; confirmations = pos 0 });
  get_transaction_hex = λ t. pure "hex";
  decode_hex = λ s. ok s;
}

abbrev amounts : Amounts ℤ
amounts = record { btc_amount_to_btc = λ n. pos n; to_btc = λ n. n; new_amount = λ x. ok x }

-- The bodies of these requests are the names of their methods.
abbrev method_of : NodeRequest → String
method_of (posted r) = r.body
method_of (by_client method) = method

all_methods :
    map method_of
      (send_with_fixed_fee amounts
        (recorded_rpc connection http amounts client)
        "address"
        700
        50
        true
        (0, [])).1.1
    ≡ fixed_fee_methods
unfolding send_with_fixed_fee node_rpc send_request_to_node transform_tx_to_set_fixed_fee add64
    sub64 to_int64 to_uint64 ◌+ℤ◌ ◌-ℤ◌
all_methods = refl

send_with_fixed_fee_requests_example :
    Requested connection http fixed_fee_methods
      (0, [])
      (send_with_fixed_fee amounts
        (recorded_rpc connection http amounts client)
        "address"
        700
        50
        true
        (0, []))
send_with_fixed_fee_requests_example =
    send_with_fixed_fee_requests connection http amounts client "address" 700 50 true (0, [])

-- The URL of a node with TLS.
node_url_of_settings :
    (new_node_api {F = ℤ}
      (λ c. ok client)
      (λ c n. (ok 100, n))
      (record { address = ok "host:8332"; user = ok "u"; password = ok "p"; tls = true })
      0).0
    ≡ ok (
      record {
        address = "host:8332";
        node_url = "https://host:8332/";
        user = "u";
        pass = "p";
        use_tls = true;
      },
      client,
    )
unfolding new_node_api
node_url_of_settings = refl
