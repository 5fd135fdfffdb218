-- ===== src/Events/Names.antt =====
-- The names of event types (the maps of events/types.go).
use bitcoin_processing.Base.{◌≡◌, ◌≢◌, ◌↔◌, refl, String, none, arith, str_eq_iff}
use bitcoin_processing.Events.Types.{EventType, event_type_string, event_type_from_string}

event_type-of-string :
    (et : EventType)
    → et ≢ EventType.invalid
    → event_type_from_string (event_type_string et) ≡ (et, none)
unfolding event_type_string event_type_from_string
event_type-of-string EventType.invalid h = absurd (h refl)
event_type-of-string _ h = refl

event_type-parsed :
    (s : String) (et : EventType)
    → event_type_from_string s ≡ (et, none)
    → (event_type_string et ≡ s) × (et ≢ EventType.invalid)
unfolding event_type_string event_type_from_string
event_type-parsed s et h = ground (
  arith,
  str_eq_iff "new-address" s,
  str_eq_iff "new-incoming-tx" s,
  str_eq_iff "incoming-tx-confirmed" s,
  str_eq_iff "new-outgoing-tx" s,
  str_eq_iff "outgoing-tx-confirmed" s,
  str_eq_iff "tx-pending-status-updated" s,
  str_eq_iff "pending-tx-cancelled" s,
)

-- A text is read as an event type, without an error, exactly when it is the name of that type and
-- the type is not the invalid one.
pub event_type_names :
    (s : String) (et : EventType)
    → (event_type_from_string s ≡ (et, none))
      ↔ ((event_type_string et ≡ s) × (et ≢ EventType.invalid))
event_type_names s et = (event_type-parsed s et, λ h. rw (← h.0) (event_type-of-string et h.1))
