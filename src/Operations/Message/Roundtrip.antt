-- ===== src/Operations/Message/Roundtrip.antt =====
-- Messages as they are written to the history and read back (channels.go, and
-- DeliverChannelMessageWithLock of internal/storage/sqlite.go).
use romancy.Base.{sym, subst, String, ◌≡◌, ◌≢◌, refl, Option, none, some, same, arith}
use romancy.Json.{Json, null, bool, num, str, arr, obj, get_field, Fields}
use romancy.Json.Reread.{
  reread_option, reread_fields-HaveExact, reread, IsExact, IsExactOption, reread-IsExact,
  reread_option-IsExact,
}
use romancy.Errors.{ok}
use romancy.Storage.Models.{ChannelMessage}
use romancy.Storage.Delivery.{wrapped_json, wrapped_message, reread_message}
use romancy.Operations.Message.{
  Decoder, ReceivedMessage, message_json, read_message, read_cached_message, go_or_other,
}

-- Metadata is an object, where there is some.
abbrev pub IsObject : Option Json → Type 0
IsObject none = Unit
IsObject (some (obj fields)) = Unit
IsObject (some _) = ⊥

-- The message as `Receive` returns it.
abbrev pub received : String → ChannelMessage → Json → ReceivedMessage
received channel m payload = record {
  id = m.id;
  channel_name = channel;
  payload = payload;
  metadata = reread_option m.metadata;
  created_at = m.published_at;
}

-- A rule for every metadata that is an object.
pub by_metadata :
    (P : Option Json → Type 0)
    → P none
    → ((fields : Fields) → P (some (obj fields)))
    → (metadata : Option Json) → IsObject metadata
    → P metadata
by_metadata P absent present none o = absent
by_metadata P absent present (some (obj fields)) o = present fields
by_metadata P absent present (some null) o = absurd o
by_metadata P absent present (some (bool b)) o = absurd o
by_metadata P absent present (some (num n)) o = absurd o
by_metadata P absent present (some (str s)) o = absurd o
by_metadata P absent present (some (arr items)) o = absurd o

read_message-wrapped :
    (t : Decoder) (channel : String) (m : ChannelMessage) (payload : Json)
    → IsObject m.metadata
    → t.decode m.payload ≡ some payload
    → read_message t (wrapped_json channel m) ≡ some (received channel m payload)
unfolding read_message get_field same reread
read_message-wrapped t channel m payload o e =
    by_metadata
      (λ md.
        read_message t (wrapped_json channel (record m { metadata = md }))
        ≡ some (received channel (record m { metadata = md }) payload))
      (rw e refl) (λ fields. rw e refl) m.metadata o

read_message-json :
    (t : Decoder) (r : ReceivedMessage)
    → IsObject r.metadata
    → IsExactOption r.metadata
    → t.decode r.payload ≡ some r.payload
    → read_message t (message_json r) ≡ some r
unfolding read_message get_field same IsExact
read_message-json t r o x e =
    by_metadata
      (λ md.
        IsExactOption md
        → read_message t (message_json (record r { metadata = md }))
          ≡ some (record r { metadata = md }))
      (λ y. rw e refl) (λ fields y. rw (e, reread_fields-HaveExact fields y) refl) r.metadata o x

named :
    (t : Decoder) (j : Json) (r : ReceivedMessage)
    → r.channel_name ≢ ""
    → go_or_other t j (some r) ≡ some (ok r)
named t j r n = ground (arith, n)

reread_message-exact :
    (m : ChannelMessage) → IsExact m.payload → IsExactOption m.metadata → reread_message m ≡ m
reread_message-exact m x y =
    rw (reread-IsExact m.payload x, reread_option-IsExact m.metadata y) refl

read_message-received :
    (t : Decoder) (channel : String) (m : ChannelMessage) (payload : Json)
    → IsObject m.metadata
    → IsExactOption m.metadata
    → t.decode payload ≡ some payload
    → read_message t (message_json (received channel m payload)) ≡ some (received channel m payload)
read_message-received t channel m payload o y e =
    subst
      (λ md.
        read_message t (message_json (record (received channel m payload) { metadata = md }))
        ≡ some (record (received channel m payload) { metadata = md }))
      (sym (reread_option-IsExact m.metadata y))
      (read_message-json t (record (received channel m payload) { metadata = m.metadata }) o y e)

-- The message that a delivery writes to the history is the one that `Receive` reads back, in either
-- of the forms that the program writes: the one of the delivery, and the one of a message that
-- `Receive` found pending. Its channel has a name, its metadata is an object where there is some,
-- the numbers in its data and metadata are at most 2 ^ 53, and its data decodes.
pub read_cached-wrapped :
    (t : Decoder) (channel : String) (m : ChannelMessage) (payload : Json)
    → channel ≢ ""
    → IsObject m.metadata
    → IsExact m.payload
    → IsExactOption m.metadata
    → t.decode m.payload ≡ some payload
    → t.decode payload ≡ some payload
    → (read_cached_message t (wrapped_message channel m) ≡ some (ok (received channel m payload)))
      × (read_cached_message t (message_json (received channel m payload))
          ≡ some (ok (received channel m payload)))
unfolding read_cached_message
read_cached-wrapped t channel m payload n o x y e e' = (
  rw (reread_message-exact m x y, read_message-wrapped t channel m payload o e)
      (named t _ (received channel m payload) n),
  rw (read_message-received t channel m payload o y e') (named t _ (received channel m payload) n),
)
