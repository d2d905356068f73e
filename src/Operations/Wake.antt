-- ===== src/Operations/Wake.antt =====
-- channels.go: how a message that was published reaches the subscribers that wait for it.
use romancy.Base.{String, ℕ, Option, none, some, List, [], ◌∷◌, if◌then◌else◌}
use romancy.Json.{Json}
use romancy.Errors.{ok, err}
use romancy.Storage.Models.{ChannelMessage, ChannelSubscription}
use romancy.Storage.Channels.{is_competing, publish_to_channel, get_channel_subscribers_waiting}
use romancy.Storage.Delivery.{deliver_channel_message_with_lock}
use romancy.Storage.World.{M, in_context, ignore, ◌>>=◌}

-- The loop of `wakeWaitingSubscribers`: errors are only logged, and a competing subscriber that was
-- woken is the last one.
unfoldable pub deliver_to_each :
    String → ChannelMessage → String → ℕ → List ChannelSubscription → M (Unit {0})
deliver_to_each channel m worker timeout [] w = (ok tt, w)
deliver_to_each channel m worker timeout (sub ∷ subs) w =
    let (r, v) = deliver_channel_message_with_lock sub.instance_id channel m worker timeout w in
    let rest = deliver_to_each channel m worker timeout subs v in
    elim r [
      | ok (some _) ↦ if is_competing sub.mode then (ok tt, v) else rest
      | ok none ↦ rest
      | err e ↦ rest
    ]

abbrev pub to_deliver : String → ℕ → Json → Option Json → ChannelMessage
to_deliver channel number payload metadata = record {
  id = number;
  channel = channel;
  message_id = "";
  payload = payload;
  metadata = metadata;
  published_at = 0;
}

-- `wakeWaitingSubscribers`, and `wakeWaitingChannelSubscribers` of app.go
unfoldable pub wake_waiting_subscribers :
    String → ℕ → String → ℕ → Json → Option Json → M (Unit {0})
unfolding deliver_to_each
wake_waiting_subscribers worker timeout channel number payload metadata = ignore (do
  subs ← get_channel_subscribers_waiting channel
  deliver_to_each channel (to_deliver channel number payload metadata) worker timeout subs)

-- `Publish` and `SendTo` outside a transaction. The context of a workflow that the engine runs has
-- no worker id, and the lock is asked for in the name of "".
unfoldable pub publish_and_wake : String → String → Json → Option Json → M (Unit {0})
publish_and_wake context channel payload metadata = do
  number ← in_context context (publish_to_channel channel payload metadata)
  wake_waiting_subscribers "" 300 channel number payload metadata
