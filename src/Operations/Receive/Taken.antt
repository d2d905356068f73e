-- ===== src/Operations/Receive/Taken.antt =====
-- `Receive` (channels.go) of a broadcast channel where a message is pending.
use romancy.Base.{
  String, ◌<>◌, ℕ, ◌≡◌, refl, sym, ap, subst, ◌∙◌, suc, Bool, true, false, Option, none, some, List,
  [], ◌∷◌, any, find, take, if◌then◌else◌,
}
use romancy.Json.{Json, encodable}
use romancy.Json.Reread.{reread, reread_option}
use romancy.Errors.{Result, ok}
use romancy.Storage.Models.{broadcast, ChannelMessage, ChannelSubscription, activity_completed}
use romancy.Storage.World.{World, seconds, pure, in_context, query, exec_, statement, now, ◌>>=◌}
use romancy.Storage.World.Runs.{bind-ok, then-ok}
use romancy.Storage.History.{same_activity, append_history, add_event}
use romancy.Storage.Channels.{
  is_subscription, set_cursor, pending_in, pending_for, get_channel_subscription,
  get_pending_channel_messages_for_instance, update_delivery_cursor,
}
use romancy.Storage.Channels.Queue.{queue, Queued}
use romancy.Storage.Channels.Cursors.{set_cursor-own, set_cursor-other}
use romancy.Activity.{
  ExecutionContext, Step, generate_activity_id, get_cached_result, activity_event,
  record_activity_result, noted_in,
}
use romancy.Operations.Message.{Decoder, ReceivedMessage, message_json}
use romancy.Operations.Message.Roundtrip.{IsObject, received, by_metadata}
use romancy.Operations.Receive.{
  chosen_channel, take_message, after_take, take_pending, if_subscribed, receive_or_replay, receive,
  received_now, message_reply, decoded_metadata, decoded_payload,
}

pending_head :
    (id channel : String) (s : ChannelSubscription) (m : ChannelMessage)
    (rest : List ChannelMessage) (w : World)
    → w.faults ≡ []
    → find (is_subscription id channel) w.db.subscriptions ≡ some s
    → s.mode ≡ broadcast
    → queue id channel w.db ≡ m ∷ rest
    → get_pending_channel_messages_for_instance id channel w ≡ (ok (m ∷ take 9 rest), w)
unfolding get_pending_channel_messages_for_instance ◌>>=◌ query statement pure queue
pending_head id channel s m rest w f found mode e =
    subst
      (λ fs.
        get_pending_channel_messages_for_instance id channel (record w { faults = fs })
        ≡ (ok (m ∷ take 9 rest), record w { faults = fs }))
      (sym f)
      (ap (λ x. pending_for id channel x (record w { faults = [] })) found
        ∙ ap (λ x. pending_in id channel x (record w { faults = [] })) mode
        ∙ ap (λ x. (ok (take 10 x), record w { faults = [] })) e)

module _ (t : Decoder) (id channel actual i : String) (m : ChannelMessage) (w : World) where
  -- The world with the cursor at the message.
  abbrev moved : World
  moved = record w { db = set_cursor id actual m.id w.db }

  cursor_moved :
      w.faults ≡ []
      → in_context "failed to update cursor" (update_delivery_cursor id actual m.id) w
        ≡ (ok tt, moved)
  unfolding in_context exec_ statement update_delivery_cursor
  cursor_moved f =
      subst
        (λ fs.
          in_context "failed to update cursor" (update_delivery_cursor id actual m.id)
            (record w { faults = fs })
          ≡ (ok tt, record moved { faults = fs }))
        (sym f) refl

  payload_decoded :
      (payload : Json)
      → t.decode m.payload ≡ some payload
      → decoded_payload t id channel actual i m.payload moved ≡ (ok payload, moved)
  unfolding pure
  payload_decoded payload d = rw (d, decoded_payload) refl

  metadata_decoded :
      IsObject m.metadata
      → decoded_metadata t id channel actual i m.metadata moved
        ≡ (ok (reread_option m.metadata), moved)
  unfolding pure reread
  metadata_decoded =
      by_metadata
        (λ md. decoded_metadata t id channel actual i md moved ≡ (ok (reread_option md), moved))
        refl (λ fields. refl) m.metadata

  taken_head :
      (payload : Json)
      → w.faults ≡ []
      → IsObject m.metadata
      → t.decode m.payload ≡ some payload
      → take_message t id channel actual i broadcast m w
        ≡ (ok (some (received channel m payload)), moved)
  unfolding take_message pure
  taken_head payload f o d =
      let P : Result (Option ReceivedMessage) × World → Type 0 =
        λ out. out ≡ (ok (some (received channel m payload)), moved) in
      bind-ok P _ _ w w true refl (
        then-ok P _ _ w moved (cursor_moved f) (
          bind-ok P _ _ moved moved payload (payload_decoded payload d)
            (bind-ok P _ _ moved moved (reread_option m.metadata) (metadata_decoded o) refl)))

-- The record of the message leaves the queues alone.
record-queues :
    (id i : String) (j : Json) (w : World)
    → w.faults ≡ []
    → ((record_activity_result id i (ok (encodable j)) w).0 ≡ ok tt)
      × ((k c : String)
          → queue k c (record_activity_result id i (ok (encodable j)) w).1.db ≡ queue k c w.db)
unfolding record_activity_result append_history ◌>>=◌ now exec_ statement queue
record-queues id i j w f =
    subst
      (λ fs.
        ((record_activity_result id i (ok (encodable j)) (record w { faults = fs })).0 ≡ ok tt)
        × ((k c : String)
            → queue k c
                (record_activity_result id i (ok (encodable j)) (record w { faults = fs })).1.db
              ≡ queue k c w.db))
      (sym f) (refl, λ k c. go k c (any (same_activity id i) w.db.history))
  where
    go :
        (k c : String) (b : Bool)
        → queue k c (
            if b
            then w.db
            else add_event (seconds w) (activity_event id i activity_completed j) w.db)
          ≡ queue k c w.db
    go k c true = refl
    go k c false = refl

pub subscription_read :
    (id channel : String) (s : ChannelSubscription) (w : World)
    → w.faults ≡ []
    → find (is_subscription id channel) w.db.subscriptions ≡ some s
    → get_channel_subscription id channel w ≡ (ok (some s), w)
unfolding get_channel_subscription query statement
subscription_read id channel s w f found =
    subst
      (λ fs.
        get_channel_subscription id channel (record w { faults = fs })
        ≡ (ok (some s), record w { faults = fs }))
      (sym f) (ap (λ x. (ok x, record w { faults = [] })) found)

received_done :
    (t : Decoder) (i : String) (ec : ExecutionContext) (r : ReceivedMessage)
    (out : Result (Unit {0}) × World)
    → out.0 ≡ ok tt
    → received_now t i ec r out
      ≡ (ok (encodable (message_json r)), noted_in i (message_reply t r) ec (ok tt), out.1)
received_done t i ec r out e = ap (λ x. received_now t i ec r (x, out.1)) e

-- `Receive` takes the oldest message that waits. Let the driver not fail, the instance be subscribed
-- to the channel in broadcast mode, the activity not be in the caches, the numbers of the messages
-- rise below the next one with no cursor past them, and the data of the first message of the
-- instance's queue be decodable, with metadata that is an object where there is some. Then
-- `Receive` returns that message, its metadata as values of type `any`, for any fuel but 0; the queue of the instance is then the rest,
-- and every other queue is as it was.
pub receive-queue :
    (fuel : ℕ) (t : Decoder) (channel : String) (timeout : Option ℕ) (ec : ExecutionContext)
    (w : World) (s : ChannelSubscription) (m : ChannelMessage) (rest : List ChannelMessage)
    (payload : Json)
    → w.faults ≡ []
    → Queued w.db
    → get_cached_result (generate_activity_id ("receive_" <> channel) ec).0 ec ≡ none
    → find (is_subscription ec.instance_id (chosen_channel channel ec)) w.db.subscriptions ≡ some s
    → s.mode ≡ broadcast
    → queue ec.instance_id (chosen_channel channel ec) w.db ≡ m ∷ rest
    → IsObject m.metadata
    → t.decode m.payload ≡ some payload
    → (ec' : ExecutionContext) × (v : World) × (receive (suc fuel) t channel timeout ec w
        ≡ some (ok (encodable (message_json (received channel m payload))), ec', v))
      × (queue ec.instance_id (chosen_channel channel ec) v.db ≡ rest)
      × ((i k : String)
          → ((i ≡ ec.instance_id) × (k ≡ chosen_channel channel ec) → ⊥)
          → queue i k v.db ≡ queue i k w.db)
unfolding receive receive_or_replay generate_activity_id get_cached_result
receive-queue fuel t channel timeout ec w s m rest payload f q fresh found mode e o d = (
  noted_in i (message_reply t r) ec1 (ok tt),
  recorded.1,
  ap (receive_or_replay again t channel i timeout ec1 w) fresh
      ∙ ap (if_subscribed again t channel actual i timeout ec1)
          (subscription_read id actual s w f found)
      ∙ ap
          (λ x.
            take_pending again t channel actual i timeout x ec1
              (get_pending_channel_messages_for_instance id actual w))
          mode
      ∙ ap (take_pending again t channel actual i timeout broadcast ec1)
          (pending_head id actual s m rest w f found mode e)
      ∙ ap (after_take again t i ec1) (taken_head t id channel actual i m w payload f o d)
      ∙ ap some (received_done t i ec1 r recorded kept.0),
  kept.1 id actual ∙ set_cursor-own id actual w.db m rest q e,
  λ k c other. kept.1 k c ∙ set_cursor-other id actual k c m.id w.db other,
)
  where
    i : String
    i = (generate_activity_id ("receive_" <> channel) ec).0

    ec1 : ExecutionContext
    ec1 = (generate_activity_id ("receive_" <> channel) ec).1

    again : ExecutionContext → World → Option Step
    again = receive fuel t channel timeout

    id : String
    id = ec.instance_id

    actual : String
    actual = chosen_channel channel ec

    r : ReceivedMessage
    r = received channel m payload

    recorded : Result (Unit {0}) × World
    recorded =
        record_activity_result id i (ok (encodable (message_json r)))
          (moved t id channel actual i m w)

    kept :
        (recorded.0 ≡ ok tt)
        × ((k c : String)
            → queue k c recorded.1.db ≡ queue k c (moved t id channel actual i m w).db)
    kept = record-queues id i (message_json r) (moved t id channel actual i m w) f
