-- ===== src/App/Events/Waited.antt =====
-- An event as app.go publishes it, and as `WaitEvent` (events.go) reads it.
use romancy.Base.{arith, String, ◌≡◌, refl, true, Option, none, some, same}
use romancy.Json.{Json, get_field}
use romancy.Json.Reread.{IsExact, IsExactOption, reread-IsExact, reread_option-IsExact}
use romancy.Errors.{ok}
use romancy.Operations.Events.{EventDecoder, ReceivedEvent, convert_to_received_event, event_of_map}
use romancy.Operations.Message.Roundtrip.{IsObject, by_metadata}
use romancy.App.Messages.{CloudEvent, event_json, event_fields}

-- The text of the time, where there is one, is a time.
abbrev pub IsTime : EventDecoder → Option String → Type 0
IsTime t none = Unit
IsTime t (some s) = t.parses s ≡ true

-- The data decodes to the value; with none it is the zero value.
abbrev pub DecodesTo : EventDecoder → Option Json → Json → Type 0
DecodesTo t none payload = payload ≡ t.zero
DecodesTo t (some j) payload = t.decode j ≡ some payload

abbrev pub as_received : CloudEvent → Json → ReceivedEvent
as_received e payload = record {
  id = e.id;
  event_type = e.event_type;
  source = e.source;
  spec_version = e.spec_version;
  time = e.time;
  extensions = e.extensions;
  payload = payload;
}

-- The event as it is where its data is written as it was sent.
abbrev raw_json : CloudEvent → Json
raw_json e = event_fields e e.payload

by_parts :
    (t : EventDecoder) (e : CloudEvent) (payload : Json) (time : Option String) (sent : Option Json)
    (extensions : Option Json)
    → IsTime t time
    → DecodesTo t sent payload
    → IsObject extensions
    → event_of_map t (raw_json (record e { time = time; payload = sent; extensions = extensions }))
      ≡ ok (as_received (record e { time = time; payload = sent; extensions = extensions }) payload)
unfolding get_field same
by_parts t e payload none none extensions p d o =
    by_metadata
      (λ x.
        event_of_map t (raw_json (record e { time = none; payload = none; extensions = x }))
        ≡ ok (as_received (record e { time = none; payload = none; extensions = x }) payload))
      (rw d refl) (λ fields. rw d refl) extensions o
by_parts t e payload none (some j) extensions p d o =
    by_metadata
      (λ x.
        event_of_map t (raw_json (record e { time = none; payload = some j; extensions = x }))
        ≡ ok (as_received (record e { time = none; payload = some j; extensions = x }) payload))
      (rw d refl) (λ fields. rw d refl) extensions o
by_parts t e payload (some s) none extensions p d o =
    by_metadata
      (λ x.
        event_of_map t (raw_json (record e { time = some s; payload = none; extensions = x }))
        ≡ ok (as_received (record e { time = some s; payload = none; extensions = x }) payload))
      (rw (d, p) refl) (λ fields. rw (d, p) refl) extensions o
by_parts t e payload (some s) (some j) extensions p d o =
    by_metadata
      (λ x.
        event_of_map t (raw_json (record e { time = some s; payload = some j; extensions = x }))
        ≡ ok (as_received (record e { time = some s; payload = some j; extensions = x }) payload))
      (rw (d, p) refl) (λ fields. rw (d, p) refl) extensions o

event_json-IsExact :
    (e : CloudEvent) (time : Option String) (sent extensions : Option Json)
    → IsExactOption sent
    → IsExactOption extensions
    → IsExact (raw_json (record e { time = time; payload = sent; extensions = extensions }))
unfolding IsExact
event_json-IsExact e none none none x y = ground arith
event_json-IsExact e none none (some k) x y = ground arith
event_json-IsExact e none (some j) none x y = ground arith
event_json-IsExact e none (some j) (some k) x y = ground arith
event_json-IsExact e (some s) none none x y = ground arith
event_json-IsExact e (some s) none (some k) x y = ground arith
event_json-IsExact e (some s) (some j) none x y = ground arith
event_json-IsExact e (some s) (some j) (some k) x y = ground arith

-- An event is received as it was sent, but for its schema and subject: what
-- `deliverEventToWaitingWorkflows` publishes of an event, `WaitEvent` converts to an event with the
-- same id, type, source, version, time and extensions, and with the data decoded, or the zero value
-- where the event has no data. The time, where there is one, is written as a time, the extensions
-- are an object where there are some, the numbers in the data and the extensions are at most 2 ^ 53,
-- and the data decodes.
pub convert_to_received-event :
    (t : EventDecoder) (e : CloudEvent) (payload : Json)
    → IsTime t e.time
    → DecodesTo t e.payload payload
    → IsObject e.extensions
    → IsExactOption e.payload
    → IsExactOption e.extensions
    → convert_to_received_event t (event_json e) ≡ ok (as_received e payload)
unfolding convert_to_received_event
convert_to_received-event t e payload timed decodes o x y =
    rw
      (
        reread_option-IsExact e.payload x,
        reread-IsExact (raw_json e) (event_json-IsExact e e.time e.payload e.extensions x y),
      )
      (by_parts t e payload e.time e.payload e.extensions timed decodes o)
