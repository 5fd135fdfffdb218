-- ===== src/Events/Callback/Body/Tests.antt =====
-- What is posted of an event on an account, also where its data has fields of those names.
use bitcoin_processing.Base.{◌≡◌, refl, none, some, [], ◌∷◌}
use bitcoin_processing.Base.Int.{pos}
use bitcoin_processing.Types.Json.{Json}
use bitcoin_processing.Events.Types.{EventType, Payload, NotificationWithSeq, event_type_string}
use bitcoin_processing.Monad
use bitcoin_processing.Monad.{ok, panic}
use bitcoin_processing.Events.Callback.Body.{
  FlatData, EventJson, set_key, flat_event, marshal_flattened_event,
}

abbrev address_event : NotificationWithSeq
address_event = record {
  notification = record {
    event_type = EventType.new_address;
    payload = Payload.account_data (record { address = "somewhere"; metainfo = Json.null });
  };
  seq = pos 7;
}

abbrev flat : FlatData
flat = ("address", Json.text "somewhere") ∷ ("seq", Json.text "of the data") ∷ []

number_over_data :
    flat_event address_event (some flat)
    ≡ ok (
        ("address", Json.text "somewhere")
        ∷ ("seq", Json.number (pos 7))
        ∷ ("type", Json.text "new-address")
        ∷ [])
unfolding flat_event set_key event_type_string
number_over_data = refl

abbrev null_json : EventJson
null_json = record {
  marshal_data = λ p. ok "null";
  unmarshal_map = λ s. ok none;
  marshal_map = λ m. ok "{}";
}

-- Data that is encoded as null makes the callback panic.
null_data : marshal_flattened_event null_json address_event ≡ panic Monad.nil_pointer
unfolding marshal_flattened_event flat_event
null_data = refl
