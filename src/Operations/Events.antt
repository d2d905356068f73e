-- ===== src/Operations/Events.antt =====
-- events.go: `WaitEvent` over `Receive`, and `SendEvent` with outbox/transactional.go.
use romancy.Base.{String, ℕ, Bool, true, false, Option, none, some, ite, same}
use romancy.Json.{
  Json, null, str, obj, Value, encodable, unencodable, marshal, member, Fields, field, end,
}
use romancy.Json.Reread.{reread, reread_fields}
use romancy.Errors.{Result, ok, err, wrap, message}
use romancy.Storage.Models.{broadcast, OutboxEvent, OutboxStatus}
use romancy.Storage.Outbox.{add_outbox_event}
use romancy.Storage.World.{World, M, raise, in_context}
use romancy.Activity.{ExecutionContext, Step}
use romancy.Operations.Message.{Decoder}
use romancy.Operations.Once.{subscribe}
use romancy.Operations.Receive.{receive}

-- A type parameter `T` of an event, and what is known of the texts of times.
pub record EventDecoder : Type 0 where
  pub decode : Json → Option Json
  pub zero : Json
  -- whether `time.Parse(time.RFC3339, ...)` takes the text
  pub parses : String → Bool
  -- the seconds of the text of a time in one of the ISO 8601 layouts
  pub time_of : String → ℕ

-- A time is the text that it is written as.
pub record ReceivedEvent : Type 0 where
  pub id : String
  pub event_type : String
  pub source : String
  pub spec_version : String
  pub time : Option String
  pub extensions : Option Json
  pub payload : Json

-- `json.Unmarshal` into a `map[string]any`
abbrev pub as_map : Json → Option Json
as_map (obj fields) = some (obj (reread_fields fields))
as_map null = some null
as_map _ = none

abbrev pub map_decoder : EventDecoder → Decoder
map_decoder t = record {
  decode = as_map;
  zero = null;
  message_type = "*romancy.ReceivedMessage[map[string]interface {}]";
  time_of = t.time_of;
}

-- `m[key].(string)`, or "" where that is no text
abbrev text_at : Option Json → String
text_at (some (str s)) = s
text_at _ = ""

abbrev time_at : (String → Bool) → Option Json → Option String
time_at parses (some (str s)) = if_parses (parses s)
  where
    if_parses : Bool → Option String
    if_parses true = some s
    if_parses false = none
time_at parses _ = none

-- `m[key].(map[string]any)`
abbrev map_at : Option Json → Option Json
map_at (some (obj fields)) = some (obj fields)
map_at _ = none

abbrev data_at : EventDecoder → Option Json → Result Json
data_at t none = ok t.zero
data_at t (some j) = elim (t.decode j) [
  | none ↦ err (wrap "failed to deserialize event data" (message "json: cannot unmarshal"))
  | some payload ↦ ok payload
]

abbrev event_with : EventDecoder → Json → Result Json → Result ReceivedEvent
event_with t j (err e) = err e
event_with t j (ok payload) = ok (record {
  id = text_at (member "id" j);
  event_type = text_at (member "type" j);
  source = text_at (member "source" j);
  spec_version = text_at (member "specversion" j);
  time = time_at t.parses (member "time" j);
  extensions = map_at (member "extensions" j);
  payload = payload;
})

abbrev pub event_of_map : EventDecoder → Json → Result ReceivedEvent
event_of_map t j = event_with t j (data_at t (member "data" j))

-- `convertToReceivedEvent`, of the data of a message: a map of values, whose numbers are floats. The
-- event's own data is encoded, and decoded into its type.
unfoldable pub convert_to_received_event : EventDecoder → Json → Result ReceivedEvent
convert_to_received_event t j = event_of_map t (reread j)

-- `json:"...,omitempty"` leaves out what there is not.
abbrev with_time : Option String → Fields → Fields
with_time none rest = rest
with_time (some s) rest = field "time" (str s) rest

abbrev with_extensions : Option Json → Fields → Fields
with_extensions none rest = rest
with_extensions (some j) rest = field "extensions" j rest

abbrev pub received_event_json : ReceivedEvent → Json
received_event_json e = obj (
    field "id" (str e.id) (
      field "type" (str e.event_type) (
        field "source" (str e.source) (
          field "specversion" (str e.spec_version)
            (with_time e.time (with_extensions e.extensions (field "data" e.payload end)))))))

-- The data of the message that `Receive` returned.
abbrev message_data : Value → Json
message_data unencodable = null
message_data (encodable j) = elim (member "data" j) [ none ↦ null | some payload ↦ payload ]

abbrev event_value : Result ReceivedEvent → Result Value
event_value (err e) = err e
event_value (ok e) = ok (encodable (received_event_json e))

abbrev converted : EventDecoder → Result Value → Result Value
converted t (err e) = err e
converted t (ok v) = event_value (convert_to_received_event t (message_data v))

abbrev waited : EventDecoder → Option Step → Option Step
waited t none = none
waited t (some (r, ec, w)) = some (converted t r, ec, w)

abbrev received_after : ℕ → EventDecoder → String → Option ℕ → Step → Option Step
received_after fuel t event_type timeout (err e, ec, w) =
    some (err (wrap "failed to subscribe to event channel" e), ec, w)
received_after fuel t event_type timeout (ok v, ec, w) =
    waited t (receive fuel (map_decoder t) event_type timeout ec w)

-- `WaitEvent`; the event is returned as it is encoded.
unfoldable pub wait_event :
    ℕ → EventDecoder → String → Option ℕ → ExecutionContext → World → Option Step
wait_event fuel t event_type timeout ec w =
    received_after fuel t event_type timeout (subscribe event_type broadcast ec w)

abbrev outbox_row : String → String → String → String → Json → OutboxEvent
outbox_row event_id event_type source content_type event_data = record {
  event_id = event_id;
  event_type = event_type;
  event_source = source;
  event_data = event_data;
  content_type = content_type;
  status = OutboxStatus.pending;
  retry_count = 0;
  published_at = none;
  created_at = 0;
}

-- `SendEventTransactional`, and `SendEvent` with "" and "application/json"; `generated` is the new
-- UUID. The context that it passes hides the transaction.
unfoldable pub send_event_transactional :
    String → String → String → String → String → Value → M (Unit {0})
send_event_transactional generated given content_type event_type source v = elim (marshal v) [
  | none ↦ raise (wrap "failed to serialize event data" (message "json: unsupported type"))
  | some j ↦ in_context "failed to add event to outbox" (
      add_outbox_event
        (outbox_row (ite (same given "") generated given) event_type source content_type j))
]
