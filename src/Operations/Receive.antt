-- ===== src/Operations/Receive.antt =====
-- channels.go: `Receive`.
pub mod Taken
pub mod Claimed
use romancy.Base.{
  String, ◌<>◌, ℕ, Bool, true, Option, none, some, List, [], ◌∷◌, ◌≟◌, not, contains, zero, suc,
  if◌then◌else◌,
}
use romancy.Json.{Json, null, Value, encodable}
use romancy.Json.Reread.{reread_fields}
use romancy.Errors.{
  Error, Result, ok, err, wrap, message, message_timeout, not_subscribed, suspended, error_text,
  channel_message,
}
use romancy.Storage.Models.{ChannelMode, broadcast, competing, ChannelMessage, ChannelSubscription}
use romancy.Storage.Channels.{
  get_channel_subscription, get_pending_channel_messages_for_instance, claim_channel_message,
  update_delivery_cursor,
}
use romancy.Storage.World.{World, M, pure, raise, in_context, ◌>>=◌, ◌>>◌}
use romancy.Activity.{
  ExecutionContext, held, decoded, Reply, result, failure, Step, generate_activity_id,
  get_cached_result, record_activity_result, noted_in, hit,
}
use romancy.Operations.Modes.{direct_channel}
use romancy.Operations.Message.{Decoder, ReceivedMessage, message_json, read_cached_message}

abbrev pub chosen_channel : String → ExecutionContext → String
chosen_channel channel ec =
    if ec.direct_subscriptions channel then direct_channel channel ec.instance_id else channel

-- What `Receive` makes of a message that is pending; `none` where another instance has claimed it.
module _ (t : Decoder) (instance_id channel actual activity_id : String) where
  abbrev claimed_if_competing : ChannelMode → ℕ → M Bool
  claimed_if_competing competing number =
      in_context "failed to claim message" (claim_channel_message number instance_id)
  claimed_if_competing _ number = pure true

  abbrev cursor_if_broadcast : ChannelMode → ℕ → M (Unit {0})
  cursor_if_broadcast broadcast number =
      in_context "failed to update cursor" (update_delivery_cursor instance_id actual number)
  cursor_if_broadcast _ number = pure tt

  abbrev decoded_payload : Json → M Json
  decoded_payload j = elim (t.decode j) [
    | none ↦ raise (message "failed to deserialize message data")
    | some payload ↦ pure payload
  ]

  -- Metadata that is stored is an object or null; the values of the map are of type `any`.
  abbrev decoded_metadata : Option Json → M (Option Json)
  decoded_metadata none = pure none
  decoded_metadata (some null) = pure none
  decoded_metadata (some (Json.obj fields)) = pure (some (Json.obj (reread_fields fields)))
  decoded_metadata (some _) = raise (message "failed to deserialize metadata")

  unfoldable pub take_message : ChannelMode → ChannelMessage → M (Option ReceivedMessage)
  take_message mode m = do
    claimed ← claimed_if_competing mode m.id
    (if not claimed then pure none else (do
      cursor_if_broadcast mode m.id
      payload ← decoded_payload m.payload
      metadata ← decoded_metadata m.metadata
      pure (
          some (record {
            id = m.id;
            channel_name = channel;
            payload = payload;
            metadata = metadata;
            created_at = m.published_at;
          }))))

abbrev pub message_reply : Decoder → ReceivedMessage → Reply
message_reply t m = result (held t.message_type (encodable (message_json m)))

-- The record of a message that was received at once.
abbrev pub received_now :
    Decoder → String → ExecutionContext → ReceivedMessage → Result (Unit {0}) × World → Step
received_now t activity_id ec m (ok x, w) =
    (ok (encodable (message_json m)), noted_in activity_id (message_reply t m) ec (ok x), w)
received_now t activity_id ec m (err e, w) = (
  err (wrap "failed to record activity result" e),
  noted_in activity_id (message_reply t m) ec (err e),
  w,
)

-- What follows the attempt to take a message; `again` is the whole of `Receive`.
abbrev pub after_take :
    (ExecutionContext → World → Option Step)
    → Decoder
    → String
    → ExecutionContext
    → Result (Option ReceivedMessage) × World
    → Option Step
after_take again t activity_id ec (err e, w) = some (err e, ec, w)
after_take again t activity_id ec (ok none, w) = again ec w
after_take again t activity_id ec (ok (some m), w) = some (
    received_now t activity_id ec m
      (record_activity_result ec.instance_id activity_id (ok (encodable (message_json m))) w))

abbrev pub not_subscribed_on_error :
    Result (Option ChannelSubscription) → Option ChannelSubscription
not_subscribed_on_error (ok found) = found
not_subscribed_on_error (err e) = none

-- The pending messages are asked for, and the first one taken; with none the workflow suspends.
abbrev pub take_pending :
    (ExecutionContext → World → Option Step)
    → Decoder
    → String
    → String
    → String
    → Option ℕ
    → ChannelMode
    → ExecutionContext
    → Result (List ChannelMessage) × World
    → Option Step
take_pending again t channel actual activity_id timeout mode ec (err e, w) =
    some (err (wrap "failed to check pending messages" e), ec, w)
take_pending again t channel actual activity_id timeout mode ec (ok [], w) =
    some (err (suspended (channel_message actual activity_id timeout)), ec, w)
take_pending again t channel actual activity_id timeout mode ec (ok (m ∷ rows), w) =
    after_take again t activity_id ec
      (take_message t ec.instance_id channel actual activity_id mode m w)

abbrev pub if_subscribed :
    (ExecutionContext → World → Option Step)
    → Decoder
    → String
    → String
    → String
    → Option ℕ
    → ExecutionContext
    → Result (Option ChannelSubscription) × World
    → Option Step
if_subscribed again t channel actual activity_id timeout ec (r, w) =
    elim (not_subscribed_on_error r) [
      | none ↦ some (err not_subscribed, ec, w)
      | some sub ↦
          take_pending again t channel actual activity_id timeout sub.mode ec
            (get_pending_channel_messages_for_instance ec.instance_id actual w)
    ]

abbrev pub timeout_text : String
timeout_text = "timeout waiting for channel message"

-- A cached error; a timeout gets its type back.
abbrev pub cached_failure : String → String → Error → Error
cached_failure instance_id channel e =
    if contains timeout_text (error_text e) then message_timeout instance_id channel else e

abbrev pub mismatch : String → Error
mismatch activity_id = message ("cached result type mismatch for channel receive " <> activity_id)

-- What `Receive` returns for a cached reply.
abbrev pub received_again : Decoder → String → String → String → Reply → Result Value
received_again t instance_id channel activity_id (failure e) =
    err (cached_failure instance_id channel e)
received_again t instance_id channel activity_id (result (held go_type v)) =
    if go_type ≟ t.message_type then ok v else err (mismatch activity_id)
received_again t instance_id channel activity_id (result (decoded j)) =
    elim (read_cached_message t j) [
      | none ↦ err (mismatch activity_id)
      | some (err e) ↦ err e
      | some (ok m) ↦ ok (encodable (message_json m))
    ]

unfoldable pub receive_or_replay :
    (ExecutionContext → World → Option Step)
    → Decoder
    → String
    → String
    → Option ℕ
    → ExecutionContext
    → World
    → Option Reply
    → Option Step
receive_or_replay again t channel activity_id timeout ec w (some r) =
    some (received_again t ec.instance_id channel activity_id r, hit ec, w)
receive_or_replay again t channel activity_id timeout ec w none =
    if_subscribed again t channel (chosen_channel channel ec) activity_id timeout ec
      (get_channel_subscription ec.instance_id (chosen_channel channel ec) w)

-- `Receive`, which starts over, with a new id, where another instance was faster; `none` means
-- that the fuel ran out. A cached message in the form of the history counts as a hit here.
unfoldable pub receive : ℕ → Decoder → String → Option ℕ → ExecutionContext → World → Option Step
unfolding receive_or_replay
receive zero t channel timeout ec w = none
receive (suc fuel) t channel timeout ec w =
    let again : ExecutionContext → World → Option Step = receive fuel t channel timeout in
    let (activity_id, ec') = generate_activity_id ("receive_" <> channel) ec in
    receive_or_replay again t channel activity_id timeout ec' w (get_cached_result activity_id ec')
