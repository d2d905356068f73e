-- ===== src/App/Messages.antt =====
-- app.go: the subscriptions that have timed out, the events that come in, and the notifications
-- about messages.
pub mod TimedOut
use romancy.Base.{
  String, ◌<>◌, ℕ, Bool, true, false, Option, none, some, List, [], ◌∷◌, ite, same, if◌then◌else◌,
}
use romancy.Json.Reread.{reread_option}
use romancy.Errors.{Error, Result, ok, err, wrap, message_timeout, error_text}
use romancy.Json.{Json, str, obj, field, end, Fields}
use romancy.Storage.Models.{
  WorkflowInstance, ChannelMessage, ChannelSubscription, HistoryEvent,
  message_timeout as timed_out_event, running,
}
use romancy.Storage.Instances.{get_instance, update_instance_status}
use romancy.Storage.Locks.{try_acquire_lock, release_lock}
use romancy.Storage.History.{append_history}
use romancy.Storage.Channels.{
  clear_channel_waiting_state, publish_to_channel, get_channel_subscribers_waiting,
  get_pending_channel_messages_for_instance,
}
use romancy.Storage.Delivery.{
  or_empty, find_expired_channel_subscriptions, deliver_channel_message_with_lock,
}
use romancy.Storage.World.{World, M, pure, in_context, on_error, finally, ignore, ◌>>=◌, ◌>>◌}
use romancy.Operations.Wake.{wake_waiting_subscribers}
use romancy.App.{App}

-- "receive_<channel>:timeout" stands in for an id that is empty.
abbrev pub timeout_activity : ChannelSubscription → String
timeout_activity s =
    ite (same (or_empty s.activity_id) "") ("receive_" <> (s.channel <> ":timeout"))
      (or_empty s.activity_id)

abbrev pub timeout_event : ChannelSubscription → HistoryEvent
timeout_event s = record {
  id = 0;
  instance_id = s.instance_id;
  activity_id = timeout_activity s;
  event_type = timed_out_event;
  event_data = str (error_text (message_timeout s.instance_id s.channel));
  data_type = "json";
  created_at = 0;
}

-- `_, _ = m`
abbrev pub ignored : {A : Type 0} → M A → M (Unit {0})
ignored m w = (ok tt, (m w).1)

-- With the lock held, which every path releases.
unfoldable pub record_timeout : String → ChannelSubscription → M (Unit {0})
record_timeout worker s = do
  ignored (get_instance s.instance_id)
  in_context "failed to record timeout error"
      (on_error (append_history (timeout_event s)) (release_lock s.instance_id worker))
  on_error (clear_channel_waiting_state s.instance_id s.channel) (release_lock s.instance_id worker)
  finally (update_instance_status s.instance_id running) (release_lock s.instance_id worker)

module _ (app : App) where
  -- `handleChannelTimeout`
  unfoldable pub handle_channel_timeout : ChannelSubscription → M (Unit {0})
  handle_channel_timeout s = do
    acquired ← try_acquire_lock s.instance_id app.worker_id app.stale_lock_timeout
    if acquired then record_timeout app.worker_id s else pure tt

  unfoldable pub handle_each_timeout : List ChannelSubscription → M (Unit {0})
  unfolding handle_channel_timeout
  handle_each_timeout [] = pure tt
  handle_each_timeout (s ∷ subs) = ignore (handle_channel_timeout s) >> handle_each_timeout subs

  -- `checkChannelTimeouts`, and `checkEventTimeouts`
  unfoldable pub check_channel_timeouts : M (Unit {0})
  check_channel_timeouts = do
    subs ←
        in_context "failed to find expired channel subscriptions"
          (find_expired_channel_subscriptions app.max_messages_per_batch)
    handle_each_timeout subs

  abbrev pub deliver_first : String → String → List ChannelMessage → M (Unit {0})
  deliver_first instance_id channel [] = pure tt
  deliver_first instance_id channel (m ∷ rows) =
      ignored (
        deliver_channel_message_with_lock instance_id channel m app.worker_id
          app.stale_lock_timeout)

  -- `deliverToWaitingSubscriber`, whose errors are only logged
  unfoldable pub deliver_to_waiting_subscriber : String → String → M (Unit {0})
  deliver_to_waiting_subscriber instance_id channel = ignore (do
    messages ← get_pending_channel_messages_for_instance instance_id channel
    deliver_first instance_id channel messages)

  unfoldable pub deliver_to_all_waiting : String → List ChannelSubscription → M (Unit {0})
  unfolding deliver_to_waiting_subscriber
  deliver_to_all_waiting channel [] = pure tt
  deliver_to_all_waiting channel (s ∷ subs) = do
    deliver_to_waiting_subscriber s.instance_id channel
    deliver_to_all_waiting channel subs

  -- `wakeWaitingChannelSubscribersForNotify`
  unfoldable pub wake_for_notify : String → String → M (Unit {0})
  unfolding deliver_to_waiting_subscriber
  wake_for_notify channel target =
      ite (same target "")
        (ignore
          (do subs ← get_channel_subscribers_waiting channel; deliver_to_all_waiting channel subs))
        (deliver_to_waiting_subscriber target channel)

-- `CloudEvent`: its attributes, and the extension that names an instance, "" where there is none.
pub record CloudEvent : Type 0 where
  pub id : String
  pub event_type : String
  pub source : String
  pub spec_version : String
  -- the text of the time
  pub time : Option String
  pub data_schema : String
  pub subject : String
  pub payload : Option Json
  pub extensions : Option Json
  pub target : String

abbrev pub text_json : Option String → Option Json
text_json none = none
text_json (some s) = some (str s)

abbrev pub optional : String → Option Json → Fields → Fields
optional key none rest = rest
optional key (some j) rest = field key j rest

-- The keys are written in the order of the alphabet, as `json.Marshal` writes a map.
abbrev pub event_fields : CloudEvent → Option Json → Json
event_fields e payload = obj (
    optional "data" payload (
      optional "extensions" e.extensions (
        field "id" (str e.id) (
          field "source" (str e.source) (
            field "specversion" (str e.spec_version)
              (optional "time" (text_json e.time) (field "type" (str e.event_type) end)))))))

-- The data is decoded into an `any`. The extensions are the values that the map holds, as they are
-- encoded. The schema and the subject are left behind.
abbrev pub event_json : CloudEvent → Json
event_json e = event_fields e (reread_option e.payload)

-- "type:instance" where an instance is named
abbrev pub event_channel : CloudEvent → String
event_channel e = ite (same e.target "") e.event_type (e.event_type <> (":" <> e.target))

-- `deliverEventToWaitingWorkflows`
unfoldable pub deliver_event_to_waiting_workflows : App → CloudEvent → M (Unit {0})
unfolding wake_waiting_subscribers
deliver_event_to_waiting_workflows app e = do
  number ←
      in_context "failed to publish event to channel"
        (publish_to_channel (event_channel e) (event_json e) none)
  wake_waiting_subscribers app.worker_id app.stale_lock_timeout (event_channel e) number
      (event_json e) none
