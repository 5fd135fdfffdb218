-- ===== src/Events/Types.antt =====
-- events/types.go: event types, and notifications with and without a sequence number; and the
-- account of wallet/accounts.go, which is one of the two kinds of data an event carries.
use bitcoin_processing.Base.{
  ℕ, String, Bool, Option, List, [], ◌∷◌, ◌==◌, find_name, find_key, name_or_invalid, key_or_error,
}
use bitcoin_processing.Base.Int.{ℤ}
use bitcoin_processing.Types.Json.{Json}
use bitcoin_processing.Types.Transaction.{TxNotification}

pub data EventType : Type 0 where
  new_address new_incoming_tx incoming_tx_confirmed new_outgoing_tx : EventType
  outgoing_tx_confirmed pending_status_updated pending_tx_cancelled invalid : EventType

abbrev pub event_int : EventType → ℕ
event_int new_address = 0
event_int new_incoming_tx = 1
event_int incoming_tx_confirmed = 2
event_int new_outgoing_tx = 3
event_int outgoing_tx_confirmed = 4
event_int pending_status_updated = 5
event_int pending_tx_cancelled = 6
event_int invalid = 7

abbrev pub same_event_type : EventType → EventType → Bool
same_event_type a b = event_int a == event_int b

abbrev pub event_type_to_string_map : List (EventType × String)
event_type_to_string_map =
    (new_address, "new-address")
    ∷ (new_incoming_tx, "new-incoming-tx")
    ∷ (incoming_tx_confirmed, "incoming-tx-confirmed")
    ∷ (new_outgoing_tx, "new-outgoing-tx")
    ∷ (outgoing_tx_confirmed, "outgoing-tx-confirmed")
    ∷ (pending_status_updated, "tx-pending-status-updated")
    ∷ (pending_tx_cancelled, "pending-tx-cancelled")
    ∷ []

unfoldable pub event_type_string : EventType → String
event_type_string et = name_or_invalid (find_name same_event_type event_type_to_string_map et)

unfoldable pub event_type_from_string : String → EventType × Option String
event_type_from_string s = key_or_error invalid s (find_key event_type_to_string_map s)

pub record Account : Type 0 where
  pub address : String
  pub metainfo : Json

-- The dynamic type of `Notification.Data`: a transaction, or an account.
pub data Payload : Type 0 where
  tx_data : TxNotification → Payload
  account_data : Account → Payload

pub record Notification : Type 0 where
  pub event_type : EventType
  pub payload : Payload

pub record NotificationWithSeq : Type 0 where
  pub notification : Notification
  pub open notification use *
  pub seq : ℤ
