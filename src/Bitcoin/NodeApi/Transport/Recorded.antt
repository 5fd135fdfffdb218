-- ===== src/Bitcoin/NodeApi/Transport/Recorded.antt =====
-- The requests that calls of bitcoin/nodeapi/rpc.go make of the node: what it means to make some in
-- order, with a rule for each way to put calls together.
use bitcoin_processing.Base.{String, Option, List, [], ◌∷◌, ◌++◌, ◌≡◌, refl, sym, ap, ◌∙◌}
use mathlib.Core.List.{append-nil, append_assoc}
use bitcoin_processing.Monad.{Error, Outcome, ok, err, panic, M, fail, lift, ◌>>=◌}
use bitcoin_processing.Bitcoin.NodeApi.{Reply}
use bitcoin_processing.Bitcoin.NodeApi.Transport.{
  Params, HttpRequest, NodeConnection, Http, RpcClient, reply_or_panic, http_request, post,
  send_request_to_node, call, call_pointer,
}

-- A request that SendRequestToNode posts, or the one that a call of rpcclient makes, by its method.
pub data NodeRequest : Type 0 where
  posted : HttpRequest → NodeRequest
  by_client : String → NodeRequest

-- A node with a list of the requests that were sent to it.
abbrev pub Recorded : Type 0 → Type 0
Recorded N = N × List NodeRequest

abbrev pub by_call : {N A : Type 0} → String → M N A → M (Recorded N) A
by_call method m w = let (r, n) = m w.0 in (r, (n, w.1 ++ by_client method ∷ []))

module _ {N F : Type 0} where
  abbrev pub recorded_http : Http N F → Http (Recorded N) F
  recorded_http h = record {
    marshal = h.marshal;
    new_request = h.new_request;
    do_request =
        λ request w. let (r, n) = h.do_request request w.0 in (r, (n, w.1 ++ posted request ∷ []));
    unmarshal_string = h.unmarshal_string;
    unmarshal_funded = h.unmarshal_funded;
    unmarshal_signed = h.unmarshal_signed;
    unmarshal_address_info = h.unmarshal_address_info;
    unmarshal_unconfirmed = h.unmarshal_unconfirmed;
    unmarshal_error = h.unmarshal_error;
  }

  abbrev pub recorded_client : RpcClient N F → RpcClient (Recorded N) F
  recorded_client c = record {
    decode_raw_transaction = λ t. by_call "decoderawtransaction" (c.decode_raw_transaction t);
    get_balance = by_call "getbalance" c.get_balance;
    set_tx_fee = λ fee. by_call "settxfee" (c.set_tx_fee fee);
    new_hash_from_str = c.new_hash_from_str;
    list_since_block = λ b. by_call "listsinceblock" (c.list_since_block b);
    get_transaction = λ t. by_call "gettransaction" (c.get_transaction t);
    get_transaction_hex = λ t. by_call "gettransaction" (c.get_transaction_hex t);
    decode_hex = c.decode_hex;
  }

module _ {N F : Type 0} (n : NodeConnection) (h : Http N F) where
  -- A request to the node's URL whose body is a request for the method, or that of rpcclient.
  abbrev pub ForMethod : String → NodeRequest → Type 0
  ForMethod method (by_client name) = name ≡ method
  ForMethod method (posted request) =
      (params : Params F) × (body : String) × (h.marshal
          (record { json_rpc_version = "1.0"; method = method; params = params })
        ≡ ok body)
      × (request ≡ http_request n h body)

  -- One request for each of the methods, in order.
  abbrev pub ForMethods : List String → List NodeRequest → Type 0
  ForMethods [] [] = Unit
  ForMethods [] (r ∷ rs) = ⊥
  ForMethods (m ∷ ms) [] = ⊥
  ForMethods (m ∷ ms) (r ∷ rs) = ForMethod m r × ForMethods ms rs

  -- The requests sent between two states.
  abbrev pub Sent : List String → Recorded N → Recorded N → Type 0
  Sent ms w v = (rs : List NodeRequest) × (v.1 ≡ w.1 ++ rs) × ForMethods ms rs

  -- With a result all the methods were requested; otherwise a beginning of them.
  abbrev pub Requested : {A : Type 0} → List String → Recorded N → Outcome A × Recorded N → Type 0
  Requested ms w (ok a, v) = Sent ms w v
  Requested ms w (err e, v) =
      (done : List String) × (later : List String) × (done ++ later ≡ ms) × Sent done w v
  Requested ms w (panic x, v) =
      (done : List String) × (later : List String) × (done ++ later ≡ ms) × Sent done w v

  pub record Requests {A : Type 0} (m : M (Recorded N) A) (ms : List String) : Type 0 where
    pub requested : (w : Recorded N) → Requested ms w (m w)

  ForMethods-append :
      (ms ns : List String) (rs qs : List NodeRequest)
      → ForMethods ms rs
      → ForMethods ns qs
      → ForMethods (ms ++ ns) (rs ++ qs)
  ForMethods-append [] ns [] qs a b = b
  ForMethods-append [] ns (r ∷ rs) qs a b = absurd a
  ForMethods-append (m ∷ ms) ns [] qs a b = absurd a
  ForMethods-append (m ∷ ms) ns (r ∷ rs) qs a b = (a.0, ForMethods-append ms ns rs qs a.1 b)

  Sent-none : (w : Recorded N) → Sent [] w w
  Sent-none w = ([], sym (append-nil w.1), tt)

  Sent-then :
      (ms ns : List String) (w v u : Recorded N) → Sent ms w v → Sent ns v u → Sent (ms ++ ns) w u
  Sent-then ms ns w v u (rs, p, a) (qs, q, b) = (
    rs ++ qs,
    q ∙ ap (λ l. l ++ qs) p ∙ append_assoc w.1 rs qs,
    ForMethods-append ms ns rs qs a b,
  )

  after :
      {B : Type 0} (ms ns : List String) (w v : Recorded N) (r : Outcome B × Recorded N)
      → Sent ms w v
      → Requested ns v r
      → Requested (ms ++ ns) w r
  after ms ns w v (ok b, u) s t = Sent-then ms ns w v u s t
  after ms ns w v (err e, u) s (done, later, p, t) = (
    ms ++ done,
    later,
    append_assoc ms done later ∙ ap (λ l. ms ++ l) p,
    Sent-then ms done w v u s t,
  )
  after ms ns w v (panic x, u) s (done, later, p, t) = (
    ms ++ done,
    later,
    append_assoc ms done later ∙ ap (λ l. ms ++ l) p,
    Sent-then ms done w v u s t,
  )

  then_parts :
      {A B : Type 0} (ms ns : List String) (w : Recorded N) (r : Outcome A × Recorded N)
      (f : A → M (Recorded N) B)
      → Requested ms w r
      → ((a : A) → Requests (f a) ns)
      → Requested (ms ++ ns) w (((λ _. r) >>= f) w)
  then_parts ms ns w (ok a, v) f s k = after ms ns w v (f a v) s ((k a).requested v)
  then_parts ms ns w (err e, v) f (done, later, p, s) k =
      (done, later ++ ns, sym (append_assoc done later ns) ∙ ap (λ l. l ++ ns) p, s)
  then_parts ms ns w (panic x, v) f (done, later, p, s) k =
      (done, later ++ ns, sym (append_assoc done later ns) ∙ ap (λ l. l ++ ns) p, s)

  pub Requests->>= :
      {A B : Type 0} (m : M (Recorded N) A) (f : A → M (Recorded N) B) (ms ns : List String)
      → Requests m ms
      → ((a : A) → Requests (f a) ns)
      → Requests (m >>= f) (ms ++ ns)
  Requests->>= m f ms ns s k = record {
    requested = λ w. then_parts ms ns w (m w) f (s.requested w) k;
  }

  unchanged : {A : Type 0} (r : Outcome A) (w v : Recorded N) → v.1 ≡ w.1 → Requested [] w (r, v)
  unchanged (ok a) w v e = ([], e ∙ sym (append-nil w.1), tt)
  unchanged (err x) w v e = ([], [], refl, ([], e ∙ sym (append-nil w.1), tt))
  unchanged (panic x) w v e = ([], [], refl, ([], e ∙ sym (append-nil w.1), tt))

  pub Requests-lift : {A : Type 0} (r : Outcome A) → Requests (lift r) []
  Requests-lift r = record { requested = λ w. unchanged r w w refl }

  -- An action that fails before all of it has asked for a beginning.
  pub Requests-fail : {A : Type 0} (e : Error) (ms : List String) → Requests (fail {A = A} e) ms
  Requests-fail e ms = record { requested = λ w. ([], ms, refl, Sent-none w) }

  answered :
      {A : Type 0} (method : String) (w v : Recorded N) (r : Outcome A)
      → Sent (method ∷ []) w v
      → Requested (method ∷ []) w (r, v)
  answered method w v (ok a) s = s
  answered method w v (err e) s = (method ∷ [], [], refl, s)
  answered method w v (panic x) s = (method ∷ [], [], refl, s)

  pub Requests-by_call :
      {A : Type 0} (method : String) (m : M N A) → Requests (by_call method m) (method ∷ [])
  Requests-by_call method m = record {
    requested = λ w.
        answered method w ((m w.0).1, w.1 ++ by_client method ∷ []) (m w.0).0
          (by_client method ∷ [], refl, (refl, tt));
  }

  Requests-lift_then :
      {A B : Type 0} (r : Outcome A) (f : A → M (Recorded N) B) (ms : List String)
      → ((a : A) → r ≡ ok a → Requests (f a) ms)
      → Requests (lift r >>= f) ms
  Requests-lift_then (ok a) f ms k = k a refl
  Requests-lift_then (err e) f ms k = record { requested = λ w. ([], ms, refl, Sent-none w) }
  Requests-lift_then (panic x) f ms k = record { requested = λ w. ([], ms, refl, Sent-none w) }

  posted_parts :
      (method : String) (w v : Recorded N) (r : Outcome (Outcome String))
      → Sent (method ∷ []) w v
      → Requested (method ∷ []) w (((λ _. (r, v)) >>= lift) w)
  posted_parts method w v (ok a) s = answered method w v a s
  posted_parts method w v (err e) s = (method ∷ [], [], refl, s)
  posted_parts method w v (panic x) s = (method ∷ [], [], refl, s)

  Requests-post :
      (method : String) (params : Params F) (body : String)
      → h.marshal (record { json_rpc_version = "1.0"; method = method; params = params }) ≡ ok body
      → Requests (post n (recorded_http h) body) (method ∷ [])
  Requests-post method params body e =
      let request = http_request n h body in
      Requests-lift_then (h.new_request request)
        (λ (u : Unit {0}). (recorded_http h).do_request request >>= lift) (method ∷ [])
        λ u allowed. record {
          requested = λ w.
              posted_parts method w ((h.do_request request w.0).1, w.1 ++ posted request ∷ [])
                (h.do_request request w.0).0
                (posted request ∷ [], refl, ((params, body, e, refl), tt));
        }

  Requests-send_request_to_node :
      (method : String) (params : Params F)
      → Requests (send_request_to_node n (recorded_http h) method params) (method ∷ [])
  unfolding send_request_to_node
  Requests-send_request_to_node method params =
      Requests-lift_then
        (h.marshal (record { json_rpc_version = "1.0"; method = method; params = params }))
        (post n (recorded_http h)) (method ∷ []) (λ body e. Requests-post method params body e)

  pub Requests-call :
      {A : Type 0} (unmarshal : String → Outcome A) (method : String) (params : Params F)
      → Requests (call n (recorded_http h) unmarshal method params) (method ∷ [])
  Requests-call unmarshal method params =
      Requests->>= (send_request_to_node n (recorded_http h) method params)
        (λ answer. lift (unmarshal answer)) (method ∷ []) []
        (Requests-send_request_to_node method params) (λ answer. Requests-lift (unmarshal answer))

  pub Requests-call_pointer :
      {A : Type 0} (unmarshal : String → Outcome (Reply (Option A))) (method : String)
      (params : Params F)
      → Requests (call_pointer n (recorded_http h) unmarshal method params) (method ∷ [])
  Requests-call_pointer unmarshal method params =
      Requests->>= (call n (recorded_http h) unmarshal method params) (λ r. lift (reply_or_panic r))
        (method ∷ []) [] (Requests-call unmarshal method params)
        (λ r. Requests-lift (reply_or_panic r))
