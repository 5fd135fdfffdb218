-- ===== src/Events/Broker.antt =====
-- events/broker.go and events/websocket.go: the event broker around the HTTP callback and the
-- websocket broadcaster, its triggers and its main loop. The loop takes the list of what its
-- select receives.
pub mod Stopping
mod Tests
use bitcoin_processing.Base.{
  ℕ, suc, Bool, true, false, List, [], ◌∷◌, ◌++◌, Option, none, some, ltb, length, if◌then◌else◌,
}
use bitcoin_processing.Base.Int.{ℤ}
use bitcoin_processing.Events.Types.{EventType, Payload, NotificationWithSeq}
use bitcoin_processing.Events.Broadcaster
use bitcoin_processing.Events.Broadcaster.{Broadcaster, broadcast}
use bitcoin_processing.Events.Callback.{
  BrokerConfig, Broker, send_http_callback_notifications, mute,
}
use bitcoin_processing.Monad
use bitcoin_processing.Monad.{
  Error, Outcome, ok, err, panic, M, gets, catch, modify, pure, skip, ◌>>=◌, ◌>>◌,
}

-- `callback` has the database; `ws_triggers` and `http_triggers` are what waits in the two channels
-- of capacity 3, `ws_timers` counts the timers set after a failed broadcast.
pub record EventBroker (Db Net : Type 0) : Type 0 where
  pub callback : Broker Db Net
  pub broadcaster : Broadcaster
  pub ws_triggers : ℕ
  pub http_triggers : List Bool
  pub ws_timers : ℕ

-- What the select receives, and whether the stop trigger has fired by the check that follows.
pub data BrokerRequest : Type 0 where
  ws_notification stop : BrokerRequest
  http_callback_notification : Bool → BrokerRequest
  mute_request : ℕ → BrokerRequest

pub record BrokerTurn : Type 0 where
  pub request : BrokerRequest
  pub stopped : Bool

abbrev pub is_stop : BrokerRequest → Bool
is_stop stop = true
is_stop _ = false

module _ {Db Net : Type 0} where
  -- Sends that do not wait.
  unfoldable pub trigger_ws_notification_sending : EventBroker Db Net → EventBroker Db Net
  trigger_ws_notification_sending w =
      if ltb w.ws_triggers 3 then record w { ws_triggers = suc w.ws_triggers } else w

  unfoldable pub trigger_http_notification_sending : EventBroker Db Net → EventBroker Db Net
  trigger_http_notification_sending w =
      if ltb (length w.http_triggers) 3
      then record w { http_triggers = w.http_triggers ++ false ∷ [] }
      else w

  unfoldable pub send_notifications : EventBroker Db Net → EventBroker Db Net
  send_notifications w = trigger_http_notification_sending (trigger_ws_notification_sending w)

  unfoldable pub subscribe_from_seq : ℤ → EventBroker Db Net → ℕ × EventBroker Db Net
  subscribe_from_seq seq w =
      let (channel, b) = Broadcaster.subscribe_from_seq seq w.broadcaster in
      (channel, trigger_ws_notification_sending (record w { broadcaster = b }))

  unfoldable pub unsubscribe_from_seq : ℕ → EventBroker Db Net → EventBroker Db Net
  unsubscribe_from_seq channel w = record w {
    broadcaster = Broadcaster.unsubscribe channel w.broadcaster;
  }

  -- A method of the HTTP callback.
  abbrev pub on_callback : {A : Type 0} → M (Broker Db Net) A → M (EventBroker Db Net) A
  on_callback m w = let (r, k) = m w.callback in (r, record w { callback = k })

  -- The deferred function of mainLoop: a panic becomes an error.
  abbrev pub recover : {A : Type 0} → M (EventBroker Db Net) A → M (EventBroker Db Net) A
  recover m w =
      let (r, w') = m w in
      elim r [
        | ok a ↦ (ok a, w')
        | err e ↦ (err e, w')
        | panic p ↦ (err (Monad.external "Event broker stopped by panic"), w')
      ]

  abbrev answer : M (EventBroker Db Net) (Unit {0}) → M (EventBroker Db Net) (Option Error)
  answer m = catch (m >>= λ _. pure none) (λ e. pure (some e))

module _ {Db Net : Type 0} (c : BrokerConfig Db Net) where
  unfoldable pub notify : EventType → Payload → M (EventBroker Db Net) (Unit {0})
  notify event_type payload w =
      let (r, d) =
        c.storage.store_event (record { event_type = event_type; payload = payload })
          w.callback.db in
      let w' : EventBroker Db Net = record w { callback = record w.callback { db = d } } in
      elim r [ ok _ ↦ (ok tt, w') | err e ↦ (err e, w') | panic p ↦ (panic p, w') ]

  unfoldable pub get_events_from_seq : ℤ → M (EventBroker Db Net) (List NotificationWithSeq)
  get_events_from_seq seq w =
      let (r, d) = c.storage.get_events_from_seq seq w.callback.db in
      (r, record w { callback = record w.callback { db = d } })

  -- `sendWSNotifications`: an error of the broadcast sets a timer.
  unfoldable pub send_ws_notifications : M (EventBroker Db Net) (Unit {0})
  send_ws_notifications w =
      let (r, d) = broadcast c.storage w.broadcaster w.callback.db in
      let w' : EventBroker Db Net = record w { callback = record w.callback { db = d } } in
      elim r [
        | ok b ↦ (ok tt, record w' { broadcaster = b })
        | err e ↦ (ok tt, record w' { ws_timers = suc w'.ws_timers })
        | panic p ↦ (panic p, w')
      ]

  unfoldable pub serve : BrokerRequest → M (EventBroker Db Net) (Option Error)
  serve ws_notification = send_ws_notifications >> pure none
  serve (http_callback_notification is_retry) =
      on_callback (send_http_callback_notifications c is_retry) >> pure none
  serve (mute_request tx_id) = answer (on_callback (mute c tx_id))
  serve stop = pure none

  abbrev pub after_reply :
      BrokerTurn
      → M (EventBroker Db Net) (List (Option Error))
      → Option Error
      → M (EventBroker Db Net) (List (Option Error))
  after_reply t continue reply =
      if t.stopped then pure (reply ∷ []) else continue >>= λ replies. pure (reply ∷ replies)

  abbrev pub one_turn :
      BrokerTurn
      → M (EventBroker Db Net) (List (Option Error))
      → M (EventBroker Db Net) (List (Option Error))
  one_turn t continue =
      if is_stop t.request then pure [] else serve t.request >>= after_reply t continue

  abbrev pub rounds : List BrokerTurn → M (EventBroker Db Net) (List (Option Error))
  rounds [] = pure []
  rounds (t ∷ ts) = one_turn t (rounds ts)

  unfoldable pub main_loop : List BrokerTurn → M (EventBroker Db Net) (List (Option Error))
  main_loop ts = recover (rounds ts)

  -- `Run`: the first sending is outside the deferred function of mainLoop.
  unfoldable pub run : List BrokerTurn → M (EventBroker Db Net) (List (Option Error))
  run ts = on_callback (send_http_callback_notifications c false) >> main_loop ts
