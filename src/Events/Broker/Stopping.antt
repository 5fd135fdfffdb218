-- ===== src/Events/Broker/Stopping.antt =====
-- The main loop of events/broker.go after the stop trigger.
use bitcoin_processing.Base.{◌≡◌, ◌⊎◌, inl, inr, refl, ap, true, List, [], ◌∷◌, ◌++◌, Option}
use bitcoin_processing.Monad.{Error, M, pure}
use bitcoin_processing.Events.Callback.{BrokerConfig}
use bitcoin_processing.Events.Broker.{
  EventBroker, BrokerTurn, is_stop, recover, one_turn, rounds, main_loop,
}

-- A round in which the stop trigger is received, or has fired by the check that ends it.
abbrev pub Stops : BrokerTurn → Type 0
Stops t = (is_stop t.request ≡ true) ⊎ (t.stopped ≡ true)

module _ {Db Net : Type 0} (c : BrokerConfig Db Net) where
  last_round :
      (t : BrokerTurn) (after : M (EventBroker Db Net) (List (Option Error)))
      → Stops t
      → one_turn c t after ≡ one_turn c t (pure [])
  last_round t after (inl e) = rw e refl
  last_round t after (inr e) = rw e refl

  rounds_stop :
      (ts us : List BrokerTurn) (t : BrokerTurn)
      → Stops t
      → rounds c (ts ++ t ∷ us) ≡ rounds c (ts ++ t ∷ [])
  rounds_stop [] us t h = last_round t (rounds c us) h
  rounds_stop (r ∷ ts) us t h = ap (λ k. one_turn c r k) (rounds_stop ts us t h)

  -- What the main loop of the event broker does after the round in which it is stopped makes no
  -- difference: whatever notifications, retries and mute requests still wait, it ends with the
  -- answers and the state that it has with none of them.
  pub main_loop-Stops :
      (ts us : List BrokerTurn) (t : BrokerTurn)
      → Stops t
      → main_loop c (ts ++ t ∷ us) ≡ main_loop c (ts ++ t ∷ [])
  unfolding main_loop
  main_loop-Stops ts us t h = ap (λ k. recover k) (rounds_stop ts us t h)
