-- ===== src/Events/Callback.antt =====
-- events/httpcallback.go, events/mute.go, events/integrity.go and the main loop of
-- events/broker.go: delivery of events to the HTTP callback. The HTTP client is a parameter.
pub mod Attempts
pub mod Body
pub mod Deliveries
use bitcoin_processing.Base.{
  ℕ, zero, suc, Bool, true, false, List, [], ◌∷◌, Option, none, some, ◌+◌, ◌==◌, ◌&&◌, ◌||◌, not,
  if◌then◌else◌,
}
use bitcoin_processing.Base.Int.{ℤ, pos, negsuc, ◌+ℤ◌, leb_ℤ, pos_part, neg_part}
use bitcoin_processing.Events.Types.{
  EventType, same_event_type, Payload, tx_data, account_data, NotificationWithSeq,
}
use bitcoin_processing.Events.Memory.{EventStorage}
use bitcoin_processing.Monad
use bitcoin_processing.Monad.{
  Error, external, Fault, aborting, Outcome, ok, err, panic, M, fail, throw, gets, catch, pure,
  modify, skip, ◌>>=◌, ◌>>◌,
}
use bitcoin_processing.Storage.{Sql, make_transact_if_available}

-- `post` is http.Post to the callback URL: the status code of the answer, or an error.
pub record BrokerConfig (Db Net : Type 0) : Type 0 where
  pub storage : EventStorage Db
  pub sql : Sql Db
  pub post : NotificationWithSeq → M Net ℕ
  pub http_callback_backoff : ℤ

-- `retry_timers` and `send_timers` count the timers set, `delay` is in seconds.
pub record Broker (Db Net : Type 0) : Type 0 where
  pub db : Db
  pub net : Net
  pub is_retrying : Bool
  pub retrying_seq : ℤ
  pub retries : ℕ
  pub delay : ℕ
  pub retry_timers : ℕ
  pub send_timers : ℕ

abbrev pub http_cb_result_save_retries : ℕ
http_cb_result_save_retries = 10

abbrev pub attempt : {S : Type 0} → M S (Unit {0}) → M S (Option Error)
attempt m = catch (m >>= λ _. pure none) (λ e. pure (some e))

module _ {S : Type 0} (persist_func : M S (Unit {0})) where
  unfoldable pub persist_http_callback_send_result_with_retry : ℕ → M S (Unit {0})
  persist_http_callback_send_result_with_retry zero = catch persist_func (λ _. throw aborting)
  persist_http_callback_send_result_with_retry (suc retries) =
      catch persist_func (λ _. persist_http_callback_send_result_with_retry retries)

-- `handleHTTPCallbackError`: whether to try again.
unfoldable pub handle_http_callback_error : ℤ → ℕ → Bool
handle_http_callback_error backoff retries =
    if leb_ℤ backoff (pos 0) then true else if leb_ℤ backoff (pos retries) then false else true

module _ {Db Net : Type 0} (c : BrokerConfig Db Net) where
  abbrev pub on_events : {A : Type 0} → M Db A → M (Broker Db Net) A
  on_events m w = let (r, d) = m w.db in (r, record w { db = d })

  abbrev broker_sql : Sql (Broker Db Net)
  broker_sql = record {
    available = c.sql.available;
    begin = on_events c.sql.begin;
    commit = on_events c.sql.commit;
    roll_back = λ before now. record now { db = c.sql.roll_back before.db now.db };
  }

  -- `eventBroker.MakeTransactIfAvailable` of events/dbtransaction.go
  unfoldable pub broker_transact : M (Broker Db Net) (Unit {0}) → M (Broker Db Net) (Unit {0})
  unfolding make_transact_if_available
  broker_transact f = make_transact_if_available broker_sql f

  -- An answer other than 200 is an error.
  unfoldable pub send_data_to_http_callback : NotificationWithSeq → M (Broker Db Net) (Unit {0})
  send_data_to_http_callback event w =
      let (r, n) = c.post event w.net in
      let w' : Broker Db Net = record w { net = n } in
      elim r [
        | ok code ↦ if code == 200 then (ok tt, w') else (err (external "bad status"), w')
        | err e ↦ (err e, w')
        | panic p ↦ (panic p, w')
      ]

  unfoldable pub handle_early_error_preparing_http_callback : M (Broker Db Net) (Unit {0})
  handle_early_error_preparing_http_callback =
      modify (λ w. record w { send_timers = suc w.send_timers })

  -- The call failed and is to be repeated: unlock, and set the timer.
  unfoldable pub schedule_retry : NotificationWithSeq → M (Broker Db Net) (Unit {0})
  schedule_retry event = do
    persist_http_callback_send_result_with_retry
        (broker_transact (on_events c.storage.clear_http_callback)) http_cb_result_save_retries
    modify (λ w. record w {
      is_retrying = true;
      retrying_seq = event.seq;
      retry_timers = suc w.retry_timers;
    })

  -- The event is delivered or given up: record it, unlock, and reset the counters.
  unfoldable pub pass_on : NotificationWithSeq → M (Broker Db Net) (Unit {0})
  pass_on event = do
    persist_http_callback_send_result_with_retry
        (broker_transact (do
          on_events (c.storage.store_last_http_sent_seq event.seq)
          on_events c.storage.clear_http_callback))
        http_cb_result_save_retries
    modify (λ w. record w { retries = 0; delay = 0 })

  -- After an attempt, which counts: set the timer to try again, or go on to the next event.
  abbrev pub conclude : NotificationWithSeq → Option Error → ℕ → M (Broker Db Net) Bool
  conclude event none retries = pass_on event >> pure true
  conclude event (some e) retries =
      if handle_http_callback_error c.http_callback_backoff retries
      then schedule_retry event >> pure false
      else pass_on event >> pure true

  -- The attempt counts, whatever the answer was.
  abbrev pub count_attempt : NotificationWithSeq → Option Error → M (Broker Db Net) Bool
  count_attempt event sent = do
    modify (λ w. record w { retries = w.retries + 1; delay = w.delay + 1 })
    retries ← gets (λ w. w.retries)
    conclude event sent retries

  abbrev pub try_event : NotificationWithSeq → M (Broker Db Net) Bool
  try_event event = attempt (send_data_to_http_callback event) >>= count_attempt event

  abbrev pub if_locked : NotificationWithSeq → Option Error → M (Broker Db Net) Bool
  if_locked event (some e) = handle_early_error_preparing_http_callback >> pure false
  if_locked event none = try_event event

  -- Locks, posts one event and counts the attempt: whether to go on to the next event.
  unfoldable pub deliver_one : NotificationWithSeq → M (Broker Db Net) Bool
  deliver_one event =
      attempt (broker_transact (on_events (c.storage.lock_http_callback event.seq)))
      >>= if_locked event

  unfoldable pub deliver : List NotificationWithSeq → M (Broker Db Net) (Unit {0})
  deliver [] = skip
  deliver (event ∷ events) =
      let rest = deliver events in
      if same_event_type event.notification.event_type EventType.new_address
      then rest
      else deliver_one event >>= λ go_on. if go_on then rest else skip

  -- A read whose error is only noticed.
  abbrev pub read_or_none : {A : Type 0} → M Db A → M (Broker Db Net) (Option A)
  read_or_none m = catch (on_events m >>= λ a. pure (some a)) (λ e. pure none)

  abbrev pub deliver_read : Option (List NotificationWithSeq) → M (Broker Db Net) (Unit {0})
  deliver_read none = handle_early_error_preparing_http_callback
  deliver_read (some es) = deliver es

  abbrev pub send_after : Option ℤ → M (Broker Db Net) (Unit {0})
  send_after none = handle_early_error_preparing_http_callback
  send_after (some seq) =
      read_or_none (c.storage.get_events_from_seq (seq +ℤ pos 1)) >>= deliver_read

  -- `sendHTTPCallbackNotifications` behind its first test.
  unfoldable pub send_unsent : M (Broker Db Net) (Unit {0})
  send_unsent = read_or_none c.storage.get_last_http_sent_seq >>= send_after

  unfoldable pub send_http_callback_notifications : Bool → M (Broker Db Net) (Unit {0})
  send_http_callback_notifications is_retry = do
    retrying ← gets (λ w. w.is_retrying)
    if retrying && not is_retry then skip else (do
      modify (λ w. record w {
        is_retrying = false;
        retrying_seq = if retrying then negsuc 0 else w.retrying_seq;
      })
      send_unsent)

  -- The transaction of an event, as `mute` finds it.
  abbrev event_tx_id : Payload → Outcome ℕ
  event_tx_id (tx_data n) = ok n.transaction.id
  event_tx_id (account_data a) = err Monad.not_about_tx

  abbrev no_event_to_mute : Error → Error
  no_event_to_mute Monad.no_such_event = Monad.no_event_to_mute
  no_event_to_mute e = e

  abbrev is_unset : ℤ → Bool
  is_unset seq = pos_part seq == 0 && neg_part seq == 1

  -- The id to mute: the one given, or that of the event being retried.
  unfoldable pub muted_id : ℕ → M (Broker Db Net) ℕ
  muted_id tx_id = do
    w ← gets (λ w. w)
    if not (tx_id == 0)
        then pure tx_id
        else if not w.is_retrying || is_unset w.retrying_seq
        then fail Monad.not_retrying
        else (do
          event ←
              catch (on_events (c.storage.get_next_event_from_seq w.retrying_seq))
                (λ e. fail (no_event_to_mute e))
          λ v. (event_tx_id event.notification.payload, v))

  unfoldable pub mute : ℕ → M (Broker Db Net) (Unit {0})
  mute tx_id = do
    id ← muted_id tx_id
    on_events (c.storage.mute_events_with_tx_id id)
    modify
        (λ w. if w.is_retrying then record w { is_retrying = true; retries = 0; delay = 0 } else w)

  -- `Check`: the process ends where the lock is held.
  unfoldable pub check_http_callback : M (Broker Db Net) (Unit {0})
  check_http_callback = do
    lock ← catch (on_events c.storage.check_http_callback_lock) (λ e. throw (Monad.failed e))
    if lock.0 then skip else throw Monad.locked
