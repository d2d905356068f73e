-- ===== src/Storage/Channels.antt =====
-- internal/storage/sqlite.go, the channel manager: messages, subscriptions, cursors and claims.
pub mod Claimed
pub mod Queue
pub mod Cursors
use romancy.Base.{
  String, ◌<>◌, ℕ, ◌-◌, ◌%◌, Bool, true, false, Option, none, some, List, [], ◌∷◌, ◌++◌, ltb, not,
  ◌≟◌, ◌&&◌, suc, itoa, select, reject, update, find, any, take, if◌then◌else◌,
}
use romancy.Json.{Json}
use romancy.Errors.{Result, ok, err, unique_violation}
use romancy.Storage.Models.{
  Db, ChannelMode, broadcast, competing, ChannelMessage, ChannelSubscription, ChannelDeliveryCursor,
  waiting_for_message,
}
use romancy.Storage.Instances.{update_instance_status}
use romancy.Storage.Locks.{release_lock}
use romancy.Storage.World.{
  now_ns_again, M, pure, ◌>>=◌, ◌>>◌, statement, query, exec, exec_, now, now_ns,
}

abbrev pub is_broadcast : ChannelMode → Bool
is_broadcast broadcast = true
is_broadcast _ = false

abbrev pub is_competing : ChannelMode → Bool
is_competing competing = true
is_competing _ = false

abbrev pub on_channel : String → ChannelMessage → Bool
on_channel channel m = m.channel ≟ channel

abbrev pub is_subscription : String → String → ChannelSubscription → Bool
is_subscription instance_id channel s = (s.instance_id ≟ instance_id) && (s.channel ≟ channel)

abbrev pub is_cursor : String → String → ChannelDeliveryCursor → Bool
is_cursor instance_id channel c = (c.instance_id ≟ instance_id) && (c.channel ≟ channel)

-- `fmt.Sprintf("%d-%d", time.Now().UnixNano(), time.Now().UnixNano()%1000000)`, of the two readings
unfoldable pub message_ref : ℕ → ℕ → String
message_ref first second = itoa first <> ("-" <> itoa (second % 1000000))

-- `message_id` is unique; the result is `LastInsertId`.
abbrev pub add_message : String → ℕ → String → Json → Option Json → Db → Result ℕ × Db
add_message msg_id t channel payload metadata d =
    if any (λ m. m.message_id ≟ msg_id) d.messages then (err unique_violation, d) else (
      ok d.next_message_id,
      record d {
        messages =
            d.messages
            ++ record {
              id = d.next_message_id;
              channel = channel;
              message_id = msg_id;
              payload = payload;
              metadata = metadata;
              published_at = t;
            }
              ∷ [];
        next_message_id = suc d.next_message_id;
      },
    )

unfoldable pub publish_to_channel : String → Json → Option Json → M ℕ
publish_to_channel channel payload metadata = do
  first ← now_ns
  second ← now_ns_again
  t ← now
  statement (add_message (message_ref first second) t channel payload metadata)

-- `COALESCE(MAX(id), 0)` of the channel's messages
unfoldable pub max_id : List ChannelMessage → ℕ
max_id [] = 0
max_id (m ∷ rows) = let rest = max_id rows in if ltb rest m.id then m.id else rest

abbrev pub upsert_subscription : String → String → ChannelMode → Db → Db
upsert_subscription instance_id channel mode d =
    if any (is_subscription instance_id channel) d.subscriptions
    then record d {
      subscriptions =
          update (is_subscription instance_id channel) (λ s. record s { mode = mode })
            d.subscriptions;
    }
    else record d {
      subscriptions =
          d.subscriptions
          ++ record {
            instance_id = instance_id;
            channel = channel;
            mode = mode;
            timeout_at = none;
            activity_id = none;
          }
            ∷ [];
    }

abbrev pub new_cursor : String → String → ℕ → ChannelDeliveryCursor
new_cursor instance_id channel n = record {
  instance_id = instance_id;
  channel = channel;
  last_delivered_id = n;
}

-- `ON CONFLICT (instance_id, channel) DO NOTHING`
abbrev pub init_cursor : String → String → Db → Db
unfolding max_id
init_cursor instance_id channel d =
    if any (is_cursor instance_id channel) d.cursors then d else record d {
      cursors =
          d.cursors
          ++ new_cursor instance_id channel (max_id (select (on_channel channel) d.messages)) ∷ [];
    }

-- `ON CONFLICT (instance_id, channel) DO UPDATE SET last_delivered_id = ...`
abbrev pub set_cursor : String → String → ℕ → Db → Db
set_cursor instance_id channel n d =
    if any (is_cursor instance_id channel) d.cursors
    then record d {
      cursors =
          update (is_cursor instance_id channel) (λ c. record c { last_delivered_id = n })
            d.cursors;
    }
    else record d { cursors = d.cursors ++ new_cursor instance_id channel n ∷ [] }

unfoldable pub subscribe_to_channel : String → String → ChannelMode → M (Unit {0})
subscribe_to_channel instance_id channel mode = do
  exec_ (upsert_subscription instance_id channel mode)
  if is_broadcast mode then exec_ (init_cursor instance_id channel) else pure tt

unfoldable pub unsubscribe_from_channel : String → String → M (Unit {0})
unsubscribe_from_channel instance_id channel =
    exec_
      λ d. record d { subscriptions = reject (is_subscription instance_id channel) d.subscriptions }

unfoldable pub get_channel_subscription : String → String → M (Option ChannelSubscription)
get_channel_subscription instance_id channel =
    query (λ d. find (is_subscription instance_id channel) d.subscriptions)

-- The mode of any subscription of the channel: `LIMIT 1`.
unfoldable pub get_channel_mode : String → M (Option ChannelMode)
get_channel_mode channel = query λ d. elim (find (λ s. s.channel ≟ channel) d.subscriptions) [
  | none ↦ none
  | some s ↦ some s.mode
]

abbrev pub set_waiting : String → String → Option String → Option ℕ → Db → Db
set_waiting instance_id channel activity_id timeout_at d = record d {
  subscriptions =
      update (is_subscription instance_id channel)
        (λ s. record s { activity_id = activity_id; timeout_at = timeout_at }) d.subscriptions;
}

-- Three statements, with no transaction of their own.
unfoldable pub register_channel_receive_and_release_lock :
    String → String → String → String → Option ℕ → M (Unit {0})
unfolding update_instance_status release_lock
register_channel_receive_and_release_lock instance_id channel worker activity_id timeout_at = do
  exec_ (set_waiting instance_id channel (some activity_id) timeout_at)
  update_instance_status instance_id waiting_for_message
  release_lock instance_id worker

unfoldable pub clear_channel_waiting_state : String → String → M (Unit {0})
clear_channel_waiting_state instance_id channel = exec_ (set_waiting instance_id channel none none)

unfoldable pub update_delivery_cursor : String → String → ℕ → M (Unit {0})
update_delivery_cursor instance_id channel n = exec_ (set_cursor instance_id channel n)

-- 0 where there is no row
abbrev pub cursor_of : String → String → Db → ℕ
cursor_of instance_id channel d = elim (find (is_cursor instance_id channel) d.cursors) [
  | none ↦ 0
  | some c ↦ c.last_delivered_id
]

unfoldable pub get_delivery_cursor : String → String → M ℕ
get_delivery_cursor instance_id channel = query (cursor_of instance_id channel)

-- Broadcast: the messages after the cursor.
abbrev pub messages_after : String → ℕ → Db → List ChannelMessage
messages_after channel n d = select (λ m. on_channel channel m && ltb n m.id) d.messages

-- Competing: `LEFT JOIN channel_message_claims c ON m.message_id = c.message_id ... IS NULL`.
abbrev pub unclaimed : String → Db → List ChannelMessage
unclaimed channel d =
    select (λ m. on_channel channel m && not (any (λ c. c.message_id ≟ m.message_id) d.claims))
      d.messages

-- At most ten messages, by rising number; `SELECT mode`, then the query for the mode.
abbrev pub pending_in : String → String → ChannelMode → M (List ChannelMessage)
pending_in instance_id channel broadcast = do
  n ← query (cursor_of instance_id channel)
  query (λ d. take 10 (messages_after channel n d))
pending_in instance_id channel _ = query (λ d. take 10 (unclaimed channel d))

abbrev pub pending_for : String → String → Option ChannelSubscription → M (List ChannelMessage)
pending_for instance_id channel none = pure []
pending_for instance_id channel (some s) = pending_in instance_id channel s.mode

unfoldable pub get_pending_channel_messages_for_instance : String → String → M (List ChannelMessage)
get_pending_channel_messages_for_instance instance_id channel = do
  found ← query λ d. find (is_subscription instance_id channel) d.subscriptions
  pending_for instance_id channel found

-- The claim's `message_id`, a TEXT column, is given the message's number: SQLite stores its digits.
unfoldable pub claim_channel_message : ℕ → String → M Bool
claim_channel_message number instance_id = do
  affected ← exec λ d. if any (λ c. c.message_id ≟ itoa number) d.claims then (0, d) else (
    1,
    record d {
      claims = d.claims ++ record { message_id = itoa number; instance_id = instance_id } ∷ [];
    },
  )
  pure (ltb 0 affected)

-- `activity_id IS NOT NULL AND activity_id != ''`
abbrev pub is_waiting : Option String → Bool
is_waiting none = false
is_waiting (some a) = not (a ≟ "")

unfoldable pub get_channel_subscribers_waiting : String → M (List ChannelSubscription)
get_channel_subscribers_waiting channel =
    query λ d. select (λ s. (s.channel ≟ channel) && is_waiting s.activity_id) d.subscriptions

unfoldable pub cleanup_old_channel_messages : ℕ → M (Unit {0})
cleanup_old_channel_messages older_than = do
  t ← now
  exec_ λ d. record d { messages = reject (λ m. ltb m.published_at (t - older_than)) d.messages }
