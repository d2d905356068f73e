-- ===== src/Storage/Delivery.antt =====
-- internal/storage/sqlite.go: the delivery of a message to a waiting subscriber, the search for
-- timed-out subscriptions, and the cleanup of an instance's subscriptions.
pub mod Delivers
use romancy.Base.{
  String, ◌<>◌, ℕ, Bool, true, false, Option, none, some, List, [], ◌∷◌, ltb, leb, ◌≟◌, ◌&&◌, itoa,
  select, reject, find, any, take, ite, same, if◌then◌else◌,
}
use romancy.Json.{Json, num, str, obj, field, end}
use romancy.Json.Reread.{reread, reread_option}
use romancy.Errors.{Result, ok, err, unique_violation, message}
use romancy.Storage.Models.{
  Db, ChannelMessage, ChannelSubscription, HistoryEvent, channel_message_received, running,
}
use romancy.Storage.Instances.{by_id, update_instance_status, limit_or}
use romancy.Storage.Locks.{try_acquire_lock, release_lock}
use romancy.Storage.History.{same_activity, add_event}
use romancy.Storage.Timers.{joins_go_instance}
use romancy.Storage.Channels.{
  is_broadcast, is_subscription, set_cursor, clear_channel_waiting_state, is_waiting,
}
use romancy.Storage.World.{
  M, pure, raise, in_context, on_error, ◌>>=◌, ◌>>◌, statement, query, exec_, now,
}

pub record ChannelDeliveryResult : Type 0 where
  pub instance_id : String
  pub workflow_name : String
  pub activity_id : String

-- `sql.ErrNoRows` from `Scan`
abbrev pub or_no_rows : {A : Type 0} → Option A → M A
or_no_rows none = raise (message "sql: no rows in result set")
or_no_rows (some a) = pure a

-- A plain insert: a second event for the same activity violates the unique constraint.
abbrev pub insert_event : ℕ → HistoryEvent → Db → Result (Unit {0}) × Db
insert_event t event d =
    if any (same_activity event.instance_id event.activity_id) d.history
    then (err unique_violation, d)
    else (ok tt, add_event t event d)

abbrev pub wrapped_json : String → ChannelMessage → Json
wrapped_json channel m = elim m.metadata [
  | none ↦ obj (
      field "id" (num m.id) (
        field "channel_name" (str channel)
          (field "created_at" (num m.published_at) (field "data" m.payload end))))
  | some metadata ↦ obj (
      field "id" (num m.id) (
        field "channel_name" (str channel) (
          field "created_at" (num m.published_at)
            (field "data" m.payload (field "metadata" metadata end)))))
]

abbrev pub reread_message : ChannelMessage → ChannelMessage
reread_message m = record m { payload = reread m.payload; metadata = reread_option m.metadata }

-- The received message in the form that `Receive` reads back; a time is written as its seconds.
-- The data and the metadata are decoded into an `any` and encoded again.
abbrev pub wrapped_message : String → ChannelMessage → Json
wrapped_message channel m = wrapped_json channel (reread_message m)

-- `COALESCE(activity_id, '')`
abbrev pub or_empty : Option String → String
or_empty none = ""
or_empty (some a) = a

abbrev pub delivery_activity : String → ChannelMessage → Option String → String
delivery_activity channel m stored =
    ite (same (or_empty stored) "") ("channel:" <> (channel <> (":" <> itoa m.id)))
      (or_empty stored)

abbrev pub received_event : String → String → String → ChannelMessage → HistoryEvent
received_event instance_id activity_id channel m = record {
  id = 0;
  instance_id = instance_id;
  activity_id = activity_id;
  event_type = channel_message_received;
  event_data = wrapped_message channel m;
  data_type = "json";
  created_at = 0;
}

-- Steps 2 to 6, with the lock held; each failure up to step 5 releases it.
module _ (instance_id channel : String) (m : ChannelMessage) (worker : String) where
  abbrev pub guarded : {A : Type 0} → String → M A → M A
  guarded context step = on_error (in_context context step) (release_lock instance_id worker)

  unfoldable pub deliver_locked : M ChannelDeliveryResult
  deliver_locked = do
    workflow ←
        guarded "failed to get workflow info"
          (query (λ d. find (by_id instance_id) d.instances) >>= or_no_rows)
    sub ←
        guarded "failed to get subscription info"
          (query (λ d. find (is_subscription instance_id channel) d.subscriptions) >>= or_no_rows)
    t ← now
    guarded "failed to record history" (
        statement (
          insert_event t
            (received_event instance_id (delivery_activity channel m sub.activity_id) channel m)))
    (if is_broadcast sub.mode
        then guarded "failed to update delivery cursor"
            (exec_ (set_cursor instance_id channel m.id))
        else pure tt)
    guarded "failed to clear waiting state" (clear_channel_waiting_state instance_id channel)
    guarded "failed to update status" (update_instance_status instance_id running)
    in_context "failed to release lock" (release_lock instance_id worker)
    pure (record {
      instance_id = instance_id;
      workflow_name = workflow.workflow_name;
      activity_id = delivery_activity channel m sub.activity_id;
    })

  -- Lock first: `none` where another worker has the lock.
  unfoldable pub deliver_channel_message_with_lock : ℕ → M (Option ChannelDeliveryResult)
  deliver_channel_message_with_lock timeout = do
    acquired ← try_acquire_lock instance_id worker timeout
    if acquired then (do r ← deliver_locked; pure (some r)) else pure none

unfoldable pub insert_by_timeout :
    ChannelSubscription → List ChannelSubscription → List ChannelSubscription
insert_by_timeout s [] = s ∷ []
insert_by_timeout s (u ∷ rows) =
    if earlier s.timeout_at u.timeout_at then s ∷ u ∷ rows else u ∷ insert_by_timeout s rows
  where
    earlier : Option ℕ → Option ℕ → Bool
    earlier none b = true
    earlier (some a) none = false
    earlier (some a) (some b) = leb a b

unfoldable pub order_by_timeout : List ChannelSubscription → List ChannelSubscription
unfolding insert_by_timeout
order_by_timeout [] = []
order_by_timeout (s ∷ rows) = insert_by_timeout s (order_by_timeout rows)

abbrev pub has_timed_out : ℕ → Option ℕ → Bool
has_timed_out t none = false
has_timed_out t (some e) = ltb e t

unfoldable pub find_expired_channel_subscriptions : ℕ → M (List ChannelSubscription)
unfolding order_by_timeout
find_expired_channel_subscriptions limit = do
  t ← now
  query λ d. take (limit_or 100 limit) (
      order_by_timeout (
        select
          (λ s.
            is_waiting s.activity_id
            && has_timed_out t s.timeout_at
            && joins_go_instance s.instance_id d.instances)
          d.subscriptions))

unfoldable pub cleanup_instance_subscriptions : String → M (Unit {0})
cleanup_instance_subscriptions instance_id = do
  in_context "failed to delete timer subscriptions"
      (exec_ λ d. record d { timers = reject (λ t. t.instance_id ≟ instance_id) d.timers })
  in_context "failed to delete channel subscriptions" (
      exec_
        λ d. record d { subscriptions = reject (λ s. s.instance_id ≟ instance_id) d.subscriptions })
  in_context "failed to delete group memberships" (
      exec_ λ d. record d { memberships = reject (λ m. m.instance_id ≟ instance_id) d.memberships })
