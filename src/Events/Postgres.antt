-- ===== src/Events/Postgres.antt =====
-- events/postgresstorage.go: the event storage in SQL tables. The driver that runs the statements,
-- encoding/json and strconv are parameters. An operation under the lock of the HTTP callback is its
-- sequence number, as in Memory, and is stored as its JSON.
pub mod Numbers
use Prim.Native.String.{◌++◌ as and_text}
use bitcoin_processing.Base.{
  ℕ, String, str_eq, Bool, Option, none, some, List, [], ◌∷◌, if◌then◌else◌,
}
use bitcoin_processing.Base.Int.{ℤ}
use bitcoin_processing.Events.Types.{
  EventType, Payload, Notification, NotificationWithSeq, event_type_string, event_type_from_string,
}
use bitcoin_processing.Monad
use bitcoin_processing.Monad.{Error, Outcome, ok, err, panic, M, lift, pure, ◌>>=◌, ◌>>◌}
use bitcoin_processing.Storage.Meta.{
  Value, uuid, string, bytes, int64, SqlQueryExecutor, get_meta, set_meta,
}

-- The variables that the event queries scan a row into.
pub record EventRow : Type 0 where
  pub seq : ℤ
  pub event_type : String
  pub marshaled_data : String

-- `query_seq`, `query_event` and `query_events` are QueryRow and Query with Scan into a number and
-- into those variables; `query_events` also has `Err()` after the last row. `unmarshal_event` is
-- the unmarshaling of NotificationWithSeq.
pub record EventDriver (Db : Type 0) : Type 0 where
  pub executor : SqlQueryExecutor Db
  pub open executor use *
  pub query_seq : String → List Value → M Db ℤ
  pub query_event : String → List Value → M Db EventRow
  pub query_events : String → List Value → M Db (List (Outcome EventRow) × Option Error)
  pub marshal_data : Payload → Outcome String
  pub unmarshal_data : String → Outcome Payload
  pub unmarshal_event : String → Outcome NotificationWithSeq
  pub marshal_operation : ℤ → Outcome String
  pub itoa : ℤ → String
  pub atoi : String → Outcome ℤ
  pub is_unique_violation : Error → Bool

abbrev pub insert_event : String
insert_event = "INSERT INTO events (type, data) VALUES ($1, $2) RETURNING seq"

abbrev pub select_events : String
select_events =
    "SELECT seq, type, data FROM events LEFT JOIN muted_events ON ((data::jsonb)->>'id')::uuid = muted_events.tx_id WHERE seq >= $1 AND muted_events.tx_id is NULL ORDER BY seq"

abbrev pub select_next_event : String
select_next_event = and_text select_events " LIMIT 1"

abbrev pub insert_muted : String
insert_muted = "INSERT INTO muted_events (tx_id) values ($1)"

abbrev pub and_then : {A B : Type 0} → Outcome A → (A → Outcome B) → Outcome B
and_then (ok a) f = f a
and_then (err e) f = err e
and_then (panic p) f = panic p

abbrev pub parsed_type : EventType × Option String → Outcome EventType
parsed_type (et, none) = ok et
parsed_type (et, some text) = err (Monad.external text)

abbrev pub or_no_such_event : Outcome EventRow → Outcome EventRow
or_no_such_event (ok row) = ok row
or_no_such_event (err Monad.no_rows) = err Monad.no_such_event
or_no_such_event (err e) = err e
or_no_such_event (panic p) = panic p

module _ {Db : Type 0} (s : EventDriver Db) where
  unfoldable pub store_event : Notification → M Db NotificationWithSeq
  store_event event = do
    data_json ← lift (s.marshal_data event.payload)
    seq ←
        s.query_seq insert_event
          (string (event_type_string event.event_type) ∷ bytes data_json ∷ [])
    pure (record { notification = event; seq = seq })

  abbrev pub event_of_row : EventRow → Outcome NotificationWithSeq
  event_of_row row = and_then (parsed_type (event_type_from_string row.event_type)) λ et.
      and_then (s.unmarshal_data row.marshaled_data) λ payload.
        ok (record { notification = record { event_type = et; payload = payload }; seq = row.seq })

  -- The loop over the rows; `rows.Err()` is asked after the last.
  unfoldable pub collect_events :
      List (Outcome EventRow) → Option Error → Outcome (List NotificationWithSeq)
  collect_events [] none = ok []
  collect_events [] (some e) = err e
  collect_events (r ∷ rs) e =
      and_then (and_then r event_of_row)
        λ event. and_then (collect_events rs e) λ events. ok (event ∷ events)

  unfoldable pub get_events_from_seq : ℤ → M Db (List NotificationWithSeq)
  get_events_from_seq seq =
      s.query_events select_events (int64 seq ∷ []) >>= λ rows. lift (collect_events rows.0 rows.1)

  abbrev pub notification_json : EventRow → String
  notification_json row = and_text "{\"seq\": " (
      and_text (s.itoa row.seq) (
        and_text ", \"type\": \""
          (and_text row.event_type (and_text "\", \"data\": " (and_text row.marshaled_data "}")))))

  unfoldable pub get_next_event_from_seq : ℤ → M Db NotificationWithSeq
  get_next_event_from_seq seq d =
      let (r, d') = s.query_event select_next_event (int64 seq ∷ []) d in
      (and_then (or_no_such_event r) (λ row. s.unmarshal_event (notification_json row)), d')

  abbrev pub get_number : String → M Db ℤ
  get_number name = get_meta s.executor name "0" >>= λ text. lift (s.atoi text)

  unfoldable pub get_last_http_sent_seq : M Db ℤ
  get_last_http_sent_seq = get_number "last_http_sent_seq"

  unfoldable pub store_last_http_sent_seq : ℤ → M Db (Unit {0})
  store_last_http_sent_seq seq = set_meta s.executor "last_http_sent_seq" (s.itoa seq)

  unfoldable pub get_last_ws_sent_seq : M Db ℤ
  get_last_ws_sent_seq = get_number "last_ws_sent_seq"

  unfoldable pub store_last_ws_sent_seq : ℤ → M Db (Unit {0})
  store_last_ws_sent_seq seq = set_meta s.executor "last_ws_sent_seq" (s.itoa seq)

  unfoldable pub lock_http_callback : ℤ → M Db (Unit {0})
  lock_http_callback operation = lift (s.marshal_operation operation) >>= λ text.
      set_meta s.executor "http_callback_operation" text

  unfoldable pub clear_http_callback : M Db (Unit {0})
  clear_http_callback = set_meta s.executor "http_callback_operation" ""

  unfoldable pub check_http_callback_lock : M Db (Bool × String)
  check_http_callback_lock = get_meta s.executor "http_callback_operation" "" >>= λ operation.
      pure (str_eq operation "", operation)

  abbrev pub already_muted : Outcome (Unit {0}) → Outcome (Unit {0})
  already_muted (ok u) = ok u
  already_muted (err e) = if s.is_unique_violation e then err Monad.already_muted else err e
  already_muted (panic p) = panic p

  unfoldable pub mute_events_with_tx_id : ℕ → M Db (Unit {0})
  mute_events_with_tx_id id d =
      let (r, d') = s.exec insert_muted (uuid id ∷ []) d in (already_muted r, d')
