-- ===== src/Events/Memory.antt =====
-- events/storage.go and events/memorystorage.go: the interface of an event storage, and the one
-- in memory. A sequence number is an `int`.
pub mod Numbers
use bitcoin_processing.Base.{
  ℕ, Bool, true, false, List, [], ◌∷◌, ◌++◌, Option, none, some, length, drop, get_elem?,
  if◌then◌else◌,
}
use bitcoin_processing.Base.Int.{ℤ, pos, negsuc, leb_ℤ}
use bitcoin_processing.Util.{min_int}
use bitcoin_processing.Events.Types.{Notification, NotificationWithSeq}
use bitcoin_processing.Monad
use bitcoin_processing.Monad.{Outcome, ok, err, panic, M, throw}

-- An operation under the lock of the HTTP callback is its sequence number. `check` returns
-- whether there is none, and the one there is.
pub record EventStorage (Db : Type 0) : Type 0 where
  pub store_event : Notification → M Db NotificationWithSeq
  pub get_events_from_seq : ℤ → M Db (List NotificationWithSeq)
  pub get_next_event_from_seq : ℤ → M Db NotificationWithSeq
  pub get_last_http_sent_seq : M Db ℤ
  pub store_last_http_sent_seq : ℤ → M Db (Unit {0})
  pub lock_http_callback : ℤ → M Db (Unit {0})
  pub clear_http_callback : M Db (Unit {0})
  pub check_http_callback_lock : M Db (Bool × Option ℤ)
  pub mute_events_with_tx_id : ℕ → M Db (Unit {0})

-- `http_callback_operation` is `none` where the source has the empty string.
pub record InMemoryEventStorage : Type 0 where
  pub events : List NotificationWithSeq
  pub last_http_sent_seq : ℤ
  pub http_callback_operation : Option ℤ

abbrev pub empty_storage : InMemoryEventStorage
empty_storage = record { events = []; last_http_sent_seq = pos 0; http_callback_operation = none }

unfoldable pub store_event : Notification → M InMemoryEventStorage NotificationWithSeq
store_event event s =
    let e : NotificationWithSeq = record { notification = event; seq = pos (length s.events) } in
    (ok e, record s { events = s.events ++ e ∷ [] })

-- `s.events[i:]` for `i` up to the length; a negative index panics.
abbrev pub slice_from : {A : Type 0} → List A → ℤ → Outcome (List A)
slice_from xs (pos i) = ok (drop i xs)
slice_from xs (negsuc i) = panic Monad.negative_index

unfoldable pub get_events_from_seq : ℤ → M InMemoryEventStorage (List NotificationWithSeq)
get_events_from_seq seq s = (slice_from s.events (min_int seq (pos (length s.events))), s)

abbrev pub event_at : List NotificationWithSeq → ℤ → Outcome NotificationWithSeq
event_at es (pos i) = elim (get_elem? es i) [ none ↦ err Monad.no_such_event | some e ↦ ok e ]
event_at es (negsuc i) = panic Monad.negative_index

-- Past the end there is no event: the test `seq >= len(s.events)`.
unfoldable pub get_next_event_from_seq : ℤ → M InMemoryEventStorage NotificationWithSeq
get_next_event_from_seq seq s = (
  if leb_ℤ (pos (length s.events)) seq then err Monad.no_such_event else event_at s.events seq,
  s,
)

-- The in-memory storage as an implementation of the interface. It cannot mute.
unfoldable pub memory_storage : EventStorage InMemoryEventStorage
unfolding store_event get_events_from_seq get_next_event_from_seq
memory_storage = record {
  store_event = store_event;
  get_events_from_seq = get_events_from_seq;
  get_next_event_from_seq = get_next_event_from_seq;
  get_last_http_sent_seq = λ s. (ok s.last_http_sent_seq, s);
  store_last_http_sent_seq = λ seq s. (ok tt, record s { last_http_sent_seq = seq });
  lock_http_callback = λ seq s. (ok tt, record s { http_callback_operation = some seq });
  clear_http_callback = λ s. (ok tt, record s { http_callback_operation = none });
  check_http_callback_lock = λ s. (
    ok (elim s.http_callback_operation [ none ↦ true | some _ ↦ false ], s.http_callback_operation),
    s,
  );
  mute_events_with_tx_id = λ id. throw Monad.not_supported;
}
