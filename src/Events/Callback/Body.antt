-- ===== src/Events/Callback/Body.antt =====
-- The JSON that a callback posts (marshalFlattenedEvent of events/httpcallback.go). encoding/json
-- is a parameter: the fields of the data are read back as a map, which is nil where the data is
-- null.
mod Tests
use bitcoin_processing.Base.{
  String, str_eq, Bool, true, false, Option, none, some, List, [], ◌∷◌, if◌then◌else◌,
}
use bitcoin_processing.Types.Json
use bitcoin_processing.Types.Json.{Json}
use bitcoin_processing.Events.Types.{Payload, NotificationWithSeq, event_type_string}
use bitcoin_processing.Monad
use bitcoin_processing.Monad.{Outcome, ok, err, panic}

abbrev pub FlatData : Type 0
FlatData = List (String × Json)

pub record EventJson : Type 0 where
  pub marshal_data : Payload → Outcome String
  pub unmarshal_map : String → Outcome (Option FlatData)
  pub marshal_map : FlatData → Outcome String

-- m[key] = value
unfoldable pub set_key : String → Json → FlatData → FlatData
set_key key value [] = (key, value) ∷ []
set_key key value ((k, x) ∷ fields) =
    let rest = set_key key value fields in
    if str_eq k key then (k, value) ∷ fields else (k, x) ∷ rest

infixl 5 ◌>>=◌
abbrev ◌>>=◌ : {A B : Type 0} → Outcome A → (A → Outcome B) → Outcome B
ok a >>= f = f a
err e >>= f = err e
panic x >>= f = panic x

abbrev pub or_panic : {A : Type 0} → Outcome A → Outcome A
or_panic (err e) = panic (Monad.failed e)
or_panic r = r

-- The data with the number and the type of the event; a nil map cannot be written to.
unfoldable pub flat_event : NotificationWithSeq → Option FlatData → Outcome FlatData
flat_event event none = panic Monad.nil_pointer
flat_event event (some fields) = ok (
    set_key "type" (Json.text (event_type_string event.event_type))
      (set_key "seq" (Json.number event.seq) fields))

unfoldable pub marshal_flattened_event : EventJson → NotificationWithSeq → Outcome String
marshal_flattened_event json event = or_panic (json.marshal_data event.payload) >>= λ text.
    or_panic (json.unmarshal_map text) >>= λ fields.
    flat_event event fields >>= λ flat. or_panic (json.marshal_map flat)
