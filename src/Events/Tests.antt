-- ===== src/Events/Tests.antt =====
-- The theorems on events at concrete storages and broadcasters.
use bitcoin_processing.Base.{false, true, ◌+◌, List, [], ◌∷◌, ◌++◌, map, ℕ, ◌≡◌, refl, All, concat}
use bitcoin_processing.Base.Int.{ℤ, pos, negsuc, ◌+ℤ◌}
use bitcoin_processing.Types.Json.{Json}
use bitcoin_processing.Events.Types.{EventType, Notification, NotificationWithSeq, Payload}
use bitcoin_processing.Events.Memory.{
  InMemoryEventStorage, empty_storage, store_event, get_events_from_seq, get_next_event_from_seq,
  memory_storage,
}
use bitcoin_processing.Events.Memory.Numbers.{
  from_number, get_events_from_seq-from_number, get_next_event-store_event,
}
use bitcoin_processing.Events.Broadcaster.{
  Broadcaster, new_broadcaster, broadcast, subscribe_from_seq,
}
use bitcoin_processing.Events.Broadcaster.Runs.{begins, stores, subscribes, broadcast_delivers}
use bitcoin_processing.Events.Callback.{
  BrokerConfig, Broker, broker_transact, send_data_to_http_callback, handle_http_callback_error,
  persist_http_callback_send_result_with_retry, pass_on, schedule_retry,
  handle_early_error_preparing_http_callback, deliver_one, deliver, send_unsent,
  send_http_callback_notifications,
}
use bitcoin_processing.Events.Callback.Deliveries.{
  recorded, RoundPosts, Counted, send_http_callback_notifications_posts,
}
use bitcoin_processing.Monad
use bitcoin_processing.Monad.{ok, panic}
use bitcoin_processing.Storage.{make_transact_if_available}

abbrev address_event : Notification
address_event = record {
  event_type = EventType.new_address;
  payload = Payload.account_data (record { address = "somewhere"; metainfo = Json.null });
}

abbrev address_event_at : ℕ → NotificationWithSeq
address_event_at i = record { notification = address_event; seq = pos i }

abbrev two_events : InMemoryEventStorage
unfolding store_event
two_events = (store_event address_event (store_event address_event empty_storage).1).1

get_events_from_seq-from_number_example :
    get_events_from_seq (pos 1) two_events
    ≡ (ok (from_number (pos 1) two_events.events), two_events)
unfolding two_events store_event
get_events_from_seq-from_number_example =
    get_events_from_seq-from_number (pos 1) two_events (refl, (refl, tt))

get_next_event-store_event_example :
    (get_next_event_from_seq (pos 0) (store_event address_event empty_storage).1).0
    ≡ ok (address_event_at 0)
unfolding store_event
get_next_event-store_event_example =
    get_next_event-store_event address_event empty_storage (address_event_at 0) refl

-- The only channel asks for the events from number 1 on.
abbrev from_one : ℕ → ℤ
from_one ch = pos 1

abbrev one_subscriber : Broadcaster
unfolding subscribe_from_seq
one_subscriber = (subscribe_from_seq (from_one new_broadcaster.next_channel) new_broadcaster).1

broadcast_delivers_example :
    (b' : Broadcaster) × ((broadcast memory_storage one_subscriber two_events).0 ≡ ok b')
    × All (λ x. concat x.sent ≡ from_number (from_one x.channel) two_events.events) b'.subs
unfolding two_events one_subscriber
broadcast_delivers_example =
    broadcast_delivers from_one two_events one_subscriber
      (subscribes (stores (stores begins address_event) address_event)) (λ ch. refl)

-- A subscription from a negative number makes the next broadcast panic.
negative_subscription :
    (broadcast memory_storage (subscribe_from_seq (negsuc 0) new_broadcaster).1 two_events).0
    ≡ panic Monad.negative_index
unfolding new_broadcaster subscribe_from_seq broadcast memory_storage get_events_from_seq
negative_subscription = refl

-- An HTTP callback that takes every event, and what was posted to it.
abbrev config : BrokerConfig InMemoryEventStorage (List NotificationWithSeq)
config = record {
  storage = memory_storage;
  sql = record {
    available = false;
    begin = λ d. (ok tt, d);
    commit = λ d. (ok tt, d);
    roll_back = λ before now. before;
  };
  post = λ e posted. (ok 200, posted ++ e ∷ []);
  http_callback_backoff = pos 3;
}

abbrev incoming_event : Notification
incoming_event = record address_event { event_type = EventType.new_incoming_tx }

abbrev broker_with : InMemoryEventStorage → Broker InMemoryEventStorage (List NotificationWithSeq)
broker_with s = record {
  db = s;
  net = [];
  is_retrying = false;
  retrying_seq = negsuc 0;
  retries = 0;
  delay = 0;
  retry_timers = 0;
  send_timers = 0;
}

abbrev posted_numbers : InMemoryEventStorage → List ℤ
posted_numbers s =
    map (λ e. e.seq) (send_http_callback_notifications config false (broker_with s)).1.net

-- The in-memory storage numbers events from 0, and the last one sent is 0 at the start: of two
-- events only the second is posted.
first_event_not_posted :
    posted_numbers (store_event incoming_event (store_event incoming_event empty_storage).1).1
    ≡ pos 1 ∷ []
unfolding store_event get_events_from_seq memory_storage broker_transact make_transact_if_available
    send_data_to_http_callback handle_http_callback_error
    persist_http_callback_send_result_with_retry pass_on schedule_retry
    handle_early_error_preparing_http_callback deliver_one deliver send_unsent
    send_http_callback_notifications ◌+ℤ◌
first_event_not_posted = refl

-- A receiver that refuses every event, which may be tried three times.
abbrev refusing : BrokerConfig InMemoryEventStorage ℕ
refusing = record {
  storage = memory_storage;
  sql = config.sql;
  post = λ e tries. (ok 500, tries + 1);
  http_callback_backoff = pos 3;
}

abbrev recorded_broker : Broker InMemoryEventStorage (ℕ × List NotificationWithSeq)
recorded_broker = record {
  db = two_events;
  net = (0, []);
  is_retrying = true;
  retrying_seq = pos 1;
  retries = 1;
  delay = 1;
  retry_timers = 1;
  send_timers = 0;
}

send_http_callback_notifications_posts_example :
    RoundPosts refusing recorded_broker
      (send_http_callback_notifications (recorded refusing) true recorded_broker).1
    × Counted refusing recorded_broker
        (send_http_callback_notifications (recorded refusing) true recorded_broker)
send_http_callback_notifications_posts_example =
    send_http_callback_notifications_posts refusing true recorded_broker
