-- ===== src/Operations/Message.antt =====
-- channels.go: the messages that `Receive` returns, and how it reads one back from the history.
-- A type parameter `T` is what `json.Unmarshal` into it makes of a value. A time is the number of
-- its seconds.
pub mod Roundtrip
use romancy.Base.{String, ℕ, Option, none, some, ite, same}
use romancy.Errors.{Result, ok, err, message}
use romancy.Json.Reread.{reread_fields, nearest_float}
use romancy.Json.{Json, null, num, str, obj, Fields, field, end, get_field}

pub record Decoder : Type 0 where
  -- the value as it is encoded again, or `none` on an error
  pub decode : Json → Option Json
  -- the zero value
  pub zero : Json
  -- the name of the type `*ReceivedMessage[T]`
  pub message_type : String
  -- the seconds of the text of a time in one of the ISO 8601 layouts, 0 for another text
  pub time_of : String → ℕ

pub record ReceivedMessage : Type 0 where
  pub id : ℕ
  pub channel_name : String
  pub payload : Json
  pub metadata : Option Json
  pub created_at : ℕ

-- `json.Marshal`, with `omitempty` on the metadata.
abbrev pub message_json : ReceivedMessage → Json
message_json m = elim m.metadata [
  | none ↦ obj (
      field "id" (num m.id) (
        field "channel_name" (str m.channel_name)
          (field "data" m.payload (field "created_at" (num m.created_at) end))))
  | some metadata ↦ obj (
      field "id" (num m.id) (
        field "channel_name" (str m.channel_name) (
          field "data" m.payload
            (field "metadata" metadata (field "created_at" (num m.created_at) end)))))
]

infixl 5 ◌>>=◌
abbrev ◌>>=◌ : {A B : Type 0} → Option A → (A → Option B) → Option B
none >>= f = none
some a >>= f = f a

-- A field of a struct: an absent one and a null leave the zero value, another type is an error.
abbrev number_or_zero : Option Json → Option ℕ
number_or_zero none = some 0
number_or_zero (some null) = some 0
number_or_zero (some (num n)) = some n
number_or_zero (some _) = none

abbrev text_or_empty : Option Json → Option String
text_or_empty none = some ""
text_or_empty (some null) = some ""
text_or_empty (some (str s)) = some s
text_or_empty (some _) = none

-- The values of the map are of type `any`.
abbrev map_or_nil : Option Json → Option (Option Json)
map_or_nil none = some none
map_or_nil (some null) = some none
map_or_nil (some (obj fields)) = some (some (obj (reread_fields fields)))
map_or_nil (some _) = none

abbrev decoded_or_zero : Decoder → Option Json → Option Json
decoded_or_zero t none = some t.zero
decoded_or_zero t (some j) = t.decode j

abbrev message_of_fields : Decoder → Fields → Option ReceivedMessage
message_of_fields t fields = do
  id ← number_or_zero (get_field "id" fields)
  channel_name ← text_or_empty (get_field "channel_name" fields)
  payload ← decoded_or_zero t (get_field "data" fields)
  metadata ← map_or_nil (get_field "metadata" fields)
  created_at ← number_or_zero (get_field "created_at" fields)
  some (record {
    id = id;
    channel_name = channel_name;
    payload = payload;
    metadata = metadata;
    created_at = created_at;
  })

-- `json.Unmarshal` into a `ReceivedMessage[T]`
unfoldable pub read_message : Decoder → Json → Option ReceivedMessage
read_message t (obj fields) = message_of_fields t fields
read_message t null =
    some (record { id = 0; channel_name = ""; payload = t.zero; metadata = none; created_at = 0 })
read_message t _ = none

-- The id in the other format: a number, or 0 for the text of a UUID and for any other value.
abbrev number_or_any : Option Json → ℕ
number_or_any (some (num n)) = nearest_float n
number_or_any _ = 0

abbrev first_text : String → String → String
first_text a b = ite (same a "") b a

-- `created_at` is a time there too: its text would have to be one.
abbrev first_time : Decoder → Option Json → String → ℕ
first_time t (some (num n)) published_at = n
first_time t _ published_at = t.time_of published_at

abbrev other_payload : Decoder → Option Json → Result Json
other_payload t none = ok t.zero
other_payload t (some j) = elim (t.decode j) [
  | none ↦ err (message "failed to deserialize cached message data")
  | some payload ↦ ok payload
]

abbrev other_message_of_fields : Decoder → Fields → Option (Result ReceivedMessage)
other_message_of_fields t fields = do
  channel ← text_or_empty (get_field "channel" fields)
  channel_name ← text_or_empty (get_field "channel_name" fields)
  metadata ← map_or_nil (get_field "metadata" fields)
  published_at ← text_or_empty (get_field "published_at" fields)
  some (elim (other_payload t (get_field "data" fields)) [
    | err e ↦ err e
    | ok payload ↦ ok (record {
      id = number_or_any (get_field "id" fields);
      channel_name = first_text channel_name channel;
      payload = payload;
      metadata = metadata;
      created_at = first_time t (get_field "created_at" fields) published_at;
    })
  ])

-- The format that other languages write; `none` where that does not decode either.
unfoldable pub read_other_message : Decoder → Json → Option (Result ReceivedMessage)
read_other_message t (obj fields) = other_message_of_fields t fields
read_other_message t _ = none

abbrev go_or_other : Decoder → Json → Option ReceivedMessage → Option (Result ReceivedMessage)
go_or_other t j none = read_other_message t j
go_or_other t j (some m) = ite (same m.channel_name "") (read_other_message t j) (some (ok m))

-- The two attempts of `Receive` on the raw JSON of a cached result.
unfoldable pub read_cached_message : Decoder → Json → Option (Result ReceivedMessage)
unfolding read_message
read_cached_message t j = go_or_other t j (read_message t j)
