-- ===== src/Events/Broker/Tests.antt =====
-- The main loop of the event broker on an in-memory storage and a callback that takes everything.
use bitcoin_processing.Base.{◌≡◌, refl, inl, false, List, [], ◌∷◌, ◌++◌}
use bitcoin_processing.Base.Int.{pos}
use bitcoin_processing.Events.Types.{NotificationWithSeq}
use bitcoin_processing.Events.Memory.{InMemoryEventStorage, memory_storage}
use bitcoin_processing.Events.Callback.{BrokerConfig}
use bitcoin_processing.Events.Broker.{
  BrokerTurn, BrokerRequest, ws_notification, http_callback_notification, mute_request, main_loop,
}
use bitcoin_processing.Events.Broker.Stopping.{main_loop-Stops}
use bitcoin_processing.Monad.{ok}

abbrev config : BrokerConfig InMemoryEventStorage (List NotificationWithSeq)
config = record {
  storage = memory_storage;
  sql = record {
    available = false;
    begin = λ d. (ok tt, d);
    commit = λ d. (ok tt, d);
    roll_back = λ before now. before;
  };
  post = λ e posted. (ok 200, posted ++ e ∷ []);
  http_callback_backoff = pos 3;
}

abbrev turn : BrokerRequest → BrokerTurn
turn r = record { request = r; stopped = false }

main_loop-Stops_example :
    main_loop config (
      turn ws_notification
      ∷ turn BrokerRequest.stop
      ∷ turn (http_callback_notification false)
      ∷ turn (mute_request 4)
      ∷ [])
    ≡ main_loop config (turn ws_notification ∷ turn BrokerRequest.stop ∷ [])
main_loop-Stops_example =
    main_loop-Stops config (turn ws_notification ∷ [])
      (turn (http_callback_notification false) ∷ turn (mute_request 4) ∷ [])
      (turn BrokerRequest.stop) (inl refl)
