-- ===== src/Replay/Delivered.antt =====
-- A message that reaches a waiting instance (`DeliverChannelMessageWithLock` of
-- internal/storage/sqlite.go), and `Receive` (channels.go) after it.
use romancy.Base.{
  String, ◌<>◌, ℕ, ◌≡◌, ◌≢◌, refl, sym, ap, ◌∙◌, suc, false, Option, none, some, [], any, find,
  same,
}
use romancy.Json.{Json, Value, encodable}
use romancy.Json.Reread.{IsExact, IsExactOption}
use romancy.Errors.{Result, ok, err}
use romancy.Storage.Models.{WorkflowInstance, ChannelSubscription, ChannelMessage, HistoryEvent}
use romancy.Storage.World.{World, seconds}
use romancy.Storage.Instances.{by_id}
use romancy.Storage.History.{same_activity}
use romancy.Storage.Channels.{is_subscription}
use romancy.Storage.Delivery.{
  ChannelDeliveryResult, delivery_activity, wrapped_message, deliver_channel_message_with_lock,
}
use romancy.Storage.History.Numbered.{DistinctEvents}
use romancy.Activity.{ExecutionContext, decoded, result, generate_activity_id, hit}
use romancy.Operations.Message.{Decoder, ReceivedMessage, message_json}
use romancy.Operations.Message.Roundtrip.{IsObject, received, read_cached-wrapped}
use romancy.Operations.Receive.{mismatch, receive}
use romancy.Replay.Recorded.{add_new-fresh}
use romancy.Storage.Delivery.Delivers.{
  Delivered, Delivered-history, Lockable, delivered_event, deliver-Delivered,
}
use romancy.Replay.Answered.{loaded, added-reply, receive-loaded}

-- A message that was delivered is the one that the workflow receives. Let the driver not fail, the
-- instance have a row whose lock is free for the worker and a subscription of the channel, and the
-- history have one event for an activity at most and none of the activity that waits. Then the
-- delivery succeeds, and with the caches that the engine loads from the history that it leaves,
-- after any operations that were counted, a `Receive` that comes to that activity returns the
-- message as it is encoded, with its number, channel, data, metadata and time, and changes nothing.
-- The channel has a name, the metadata is an object where there is some, the numbers in the data and
-- the metadata are at most 2 ^ 53, and the data is decoded to a value that is encoded as it is.
pub deliver_channel_message-receive :
    (id channel : String) (m : ChannelMessage) (worker : String) (timeout : ℕ)
    (r : WorkflowInstance) (s : ChannelSubscription) (w : World) (payload : Json) (t : Decoder)
    → w.faults ≡ []
    → Lockable id channel m worker w
    → find (by_id id) w.db.instances ≡ some r
    → find (is_subscription id channel) w.db.subscriptions ≡ some s
    → DistinctEvents w.db.history
    → any (same_activity id (delivery_activity channel m s.activity_id)) w.db.history ≡ false
    → channel ≢ ""
    → IsObject m.metadata
    → IsExact m.payload
    → IsExactOption m.metadata
    → t.decode m.payload ≡ some payload
    → t.decode payload ≡ some payload
    → let delivered : Result (Option ChannelDeliveryResult) × World =
        deliver_channel_message_with_lock id channel m worker timeout w in
      Delivered id channel m worker w s delivered
      × ((fuel : ℕ) (name : String) (wait : Option ℕ) (counts : String → ℕ) (u : World)
          → let ec : ExecutionContext = loaded id delivered.1.db.history counts in
            (generate_activity_id ("receive_" <> name) ec).0
              ≡ delivery_activity channel m s.activity_id
            → receive (suc fuel) t name wait ec u
              ≡ some (
                ok (encodable (message_json (received channel m payload))),
                hit (generate_activity_id ("receive_" <> name) ec).1,
                u,
              ))
unfolding same
deliver_channel_message-receive id channel m worker timeout r s w payload t f free row sub distinct
      fresh named o x y d d' =
    (
      done,
      λ fuel name wait counts u at.
          receive-loaded id delivered.1.db.history counts
            (delivery_activity channel m s.activity_id)
            (result (decoded (wrapped_message channel m))) fuel t name wait u
            (rw
              (
                Delivered-history id channel m worker w s delivered done,
                sym (add_new-fresh (seconds w) event w.db fresh),
              )
              (added-reply (seconds w) event w.db counts _ distinct fresh refl))
            at
          ∙ ap
              (λ x. some (
                again name x,
                hit
                    (generate_activity_id ("receive_" <> name)
                      (loaded id delivered.1.db.history counts)).1,
                u,
              ))
              (read_cached-wrapped t channel m payload named o x y d d').0,
    )
  where
    delivered : Result (Option ChannelDeliveryResult) × World
    delivered = deliver_channel_message_with_lock id channel m worker timeout w

    done : Delivered id channel m worker w s delivered
    done = deliver-Delivered id channel m worker timeout r s w f free row sub fresh

    event : HistoryEvent
    event = delivered_event id channel m worker s

    again : String → Option (Result ReceivedMessage) → Result Value
    again name x = elim x [
      | none ↦ err (mismatch (delivery_activity channel m s.activity_id))
      | some (err e) ↦ err e
      | some (ok y) ↦ ok (encodable (message_json y))
    ]
