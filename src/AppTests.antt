-- ===== src/AppTests.antt =====
-- A waiting workflow, and the theorems on the runtime at it.
use romancy.Base.{
  String, ◌<>◌, ℕ, ◌∷◌, ◌≡◌, refl, ◌≢◌, ◌≟◌, true, false, none, some, [], arith, same, subst, ap,
  List, suc, ◌≤◌, any, Option,
}
use romancy.Json.{str, num, null, encodable}
use romancy.Json.Reread.{IsExact}
use romancy.Errors.{Result, ok, err, message_timeout}
use romancy.Storage.Models.{
  running, ChannelMessage, ChannelSubscription, broadcast, TimerSubscription, CompensationEntry,
}
use romancy.Storage.World.{World, ◌>>=◌, now, exec, statement, pure}
use romancy.Storage.Groups.Members.{
  GroupCommand, join, leave, leave_all, perform_commands, apply_commands, groups_of,
  perform_commands-apply_commands,
}
use romancy.Activity.{ExecutionContext, generate_activity_id, get_cached_result, hit}
use romancy.Operations.Message.{Decoder, message_json, read_cached_message}
use romancy.Operations.Message.Roundtrip.{received, read_cached-wrapped}
use romancy.Operations.Once.{sleep}
use romancy.Operations.Receive.{receive}
use romancy.Storage.Delivery.{
  ChannelDeliveryResult, wrapped_message, delivery_activity, deliver_channel_message_with_lock,
}
use romancy.Replay.Answered.{loaded}
use romancy.Storage.Delivery.Delivers.{Delivered}
use romancy.Replay.Delivered.{deliver_channel_message-receive}
use romancy.Storage.Channels.{publish_to_channel}
use romancy.Storage.Channels.Queue.{queue, Publishes, published, publish_to_channel-Publishes}
use romancy.Storage.Groups.{try_acquire_system_lock}
use romancy.Storage.Groups.Leased.{Leads, held_lock, run_attempts, try_acquire_system_lock-Leads}
use romancy.Storage.Instances.{by_id, find_resumable_workflows}
use romancy.Storage.Instances.Recovered.{cleanup_stale_locks-resumable}
use romancy.Storage.Locks.{cleanup_stale_locks}
use romancy.Operations.Receive.Taken.{receive-queue}
use romancy.Replay.{empty_context}
use romancy.Storage.Models.{WorkflowInstance}
use romancy.App.{App, resume_instance}
use romancy.App.Timers.{handle_expired_timer}
use romancy.App.Timers.Woken.{woken, sleep_id, handle_expired_timer-sleep}
use romancy.App.Messages.{handle_channel_timeout, timeout_activity}
use romancy.App.Messages.TimedOut.{handle_channel_timeout-receive}
use romancy.App.Cancel.Compensated.{SameEnds, execute_entries-run_entries}
use romancy.App.Tasks.{calculate_backoff}
use romancy.App.Tasks.Backoff.{calculate_backoff-bounds}
use romancy.ReplayTests.{shop, order}
use romancy.Tests.{world, tables, instance_row}

abbrev pub app : App
app = record {
  worker_id = "a";
  stale_lock_timeout = 300;
  leader_lease_duration = 30;
  max_timers_per_batch = 10;
  max_messages_per_batch = 10;
  max_workflows_per_batch = 10;
  channel_message_retention = 3600;
  workflow_runners = λ name. some order;
  event_handlers = λ event_type. none;
  has_executor = λ name. true;
  has_runner = true;
}

abbrev pub subscription : ChannelSubscription
subscription = record {
  instance_id = "w1";
  channel = "news";
  mode = broadcast;
  timeout_at = some 5;
  activity_id = some "receive_news:1";
}

abbrev pub posted : ℕ → ChannelMessage
posted n = record {
  id = n;
  channel = "news";
  message_id = "";
  payload = str "hello";
  metadata = none;
  published_at = 3;
}

-- The data is decoded as it is.
abbrev pub texts : Decoder
texts = record {
  decode = λ j. some j;
  zero = null;
  message_type = "*romancy.ReceivedMessage[string]";
  time_of = λ s. 0;
}

abbrev pub waiting_world : World
waiting_world = record world {
  db = record tables { subscriptions = subscription ∷ [] };
  faults = [];
}

abbrev timer_row : TimerSubscription
timer_row = record {
  id = 1;
  instance_id = "w1";
  timer_id = "sleep:1";
  expires_at = 7;
  activity_id = "sleep:1";
}

channel_named : ◌≢◌ {A = String} "news" ""
unfolding same
channel_named e = subst (λ t. elim t [ true ↦ ⊥ | false ↦ Unit {0} ]) (ap (λ s. s ≟ "") e) tt

exact : IsExact (str "hello")
unfolding IsExact
exact = tt

read_cached-wrapped_example :
    (read_cached_message texts (wrapped_message "news" (posted 4))
      ≡ some (ok (received "news" (posted 4) (str "hello"))))
    × (read_cached_message texts (message_json (received "news" (posted 4) (str "hello")))
        ≡ some (ok (received "news" (posted 4) (str "hello"))))
read_cached-wrapped_example =
    read_cached-wrapped texts "news" (posted 4) (str "hello") channel_named tt exact tt refl refl

calculate_backoff-bounds_example :
    (1000 ≤ calculate_backoff 1000 3 6000)
    × (calculate_backoff 1000 3 6000 ≤ 6000)
    × (calculate_backoff 1000 3 6000 ≤ calculate_backoff 1000 4 6000)
    × (5 ≤ 3 → calculate_backoff 1000 3 6000 ≡ calculate_backoff 1000 5 6000)
calculate_backoff-bounds_example = calculate_backoff-bounds 1000 3 6000 (omega arith)

abbrev commands : List GroupCommand
commands = join "w1" "g" ∷ join "w2" "g" ∷ join "w1" "g" ∷ leave "w1" "g" ∷ leave_all "w3" ∷ []

perform_commands-apply_commands_example :
    groups_of (perform_commands commands world).1.db "w2" "g"
    ≡ apply_commands (perform_commands commands world).0 (groups_of world.db) "w2" "g"
perform_commands-apply_commands_example = perform_commands-apply_commands commands world "w2" "g"

abbrev pub booked : CompensationEntry
booked = record {
  id = 2;
  instance_id = "w1";
  activity_id = "charge:1";
  activity_name = "charge";
  args = num 5;
  created_at = 2;
}

execute_entries-run_entries_example : SameEnds shop (λ name. true) "w1" (1 ∷ []) (booked ∷ []) world
execute_entries-run_entries_example =
    execute_entries-run_entries shop (λ name. true) "w1" (1 ∷ []) (booked ∷ []) world (refl, tt)

handle_expired_timer-sleep_example :
    (handle_expired_timer shop app 5 timer_row waiting_world
      ≡ resume_instance shop app 5 "w1" (woken app timer_row waiting_world))
    × ((counts : String → ℕ) (given : String) (duration : ℕ) (u : World)
        → let ec : ExecutionContext =
            loaded "w1" (woken app timer_row waiting_world).db.history counts in
          sleep_id given ec ≡ "sleep:1"
          → (ec' : ExecutionContext) × (sleep given duration ec u ≡ (ok (encodable null), ec', u)))
unfolding same
handle_expired_timer-sleep_example =
    handle_expired_timer-sleep shop app 5 timer_row (instance_row "w1" running) order waiting_world
      refl refl refl refl (refl, (refl, (refl, tt))) refl

handle_channel_timeout-receive_example :
    ((handle_channel_timeout app subscription waiting_world).0 ≡ ok tt)
    × ((fuel : ℕ) (t : Decoder) (channel : String) (timeout : Option ℕ) (counts : String → ℕ)
          (u : World)
        → let ec : ExecutionContext =
            loaded "w1"
              (handle_channel_timeout app subscription waiting_world).1.db.history
              counts in
          (generate_activity_id ("receive_" <> channel) ec).0 ≡ timeout_activity subscription
          → receive (suc fuel) t channel timeout ec u
            ≡ some (
              err (message_timeout "w1" channel),
              hit (generate_activity_id ("receive_" <> channel) ec).1,
              u,
            ))
unfolding same
handle_channel_timeout-receive_example =
    handle_channel_timeout-receive app subscription waiting_world refl refl
      (refl, (refl, (refl, tt))) refl

deliver_channel_message-receive_example :
    let delivered : Result (Option ChannelDeliveryResult) × World =
      deliver_channel_message_with_lock "w1" "news" (posted 4) "a" 300 waiting_world in
    Delivered "w1" "news" (posted 4) "a" waiting_world subscription delivered
    × ((fuel : ℕ) (name : String) (wait : Option ℕ) (counts : String → ℕ) (u : World)
        → let ec : ExecutionContext = loaded "w1" delivered.1.db.history counts in
          (generate_activity_id ("receive_" <> name) ec).0
            ≡ delivery_activity "news" (posted 4) subscription.activity_id
          → receive (suc fuel) texts name wait ec u
            ≡ some (
              ok (encodable (message_json (received "news" (posted 4) (str "hello")))),
              hit (generate_activity_id ("receive_" <> name) ec).1,
              u,
            ))
unfolding same
deliver_channel_message-receive_example =
    deliver_channel_message-receive "w1" "news" (posted 4) "a" 300 (instance_row "w1" running)
      subscription waiting_world (str "hello") texts refl refl refl refl (refl, (refl, (refl, tt)))
      refl channel_named tt exact tt refl refl

-- Two messages, the first of which the subscriber has had.
abbrev posted_world : World
posted_world = record waiting_world {
  db = record (waiting_world.db) {
    messages = posted 1 ∷ posted 2 ∷ [];
    next_message_id = 3;
    cursors = record { instance_id = "w1"; channel = "news"; last_delivered_id = 1 } ∷ [];
  };
}

publish_to_channel-Publishes_example :
    Publishes posted_world
      (published "news" (str "more") none posted_world)
      (publish_to_channel "news" (str "more") none posted_world)
publish_to_channel-Publishes_example =
    publish_to_channel-Publishes "news" (str "more") none posted_world
      ((omega arith, omega arith, (omega arith, omega arith, tt)), (omega arith, tt), omega arith)

abbrev pub reader : ExecutionContext
reader = empty_context "w1" false

receive-queue_example :
    (ec' : ExecutionContext) × (v : World) × (receive 1 texts "news" none reader posted_world
      ≡ some (ok (encodable (message_json (received "news" (posted 2) (str "hello")))), ec', v))
    × (queue "w1" "news" v.db ≡ [])
    × ((i k : String)
        → ((i ≡ "w1") × (k ≡ "news") → ⊥)
        → queue i k v.db ≡ queue i k posted_world.db)
unfolding same queue get_cached_result
receive-queue_example =
    receive-queue 0 texts "news" none reader posted_world subscription (posted 2) [] (str "hello")
      refl
      ((omega arith, omega arith, (omega arith, omega arith, tt)), (omega arith, tt), omega arith)
      refl refl refl refl tt refl

b-ne-a : ◌≢◌ {A = String} "b" "a"
unfolding same
b-ne-a e = subst (λ t. elim t [ true ↦ ⊥ | false ↦ Unit {0} ]) (ap (λ s. s ≟ "a") e) tt

try_acquire_system_lock-Leads_example :
    let v : World = (try_acquire_system_lock "romancy_leader" "a" 30 waiting_world).1 in
    (any
        (λ b. b)
        (run_attempts "romancy_leader" ((8000000000, "b", 30) ∷ (37000000000, "b", 30) ∷ []) v).0
      ≡ false)
    × Leads "a" 37 (
        held_lock "romancy_leader"
          (run_attempts "romancy_leader"
            ((8000000000, "b", 30) ∷ (37000000000, "b", 30) ∷ [])
            v).1.db)
unfolding try_acquire_system_lock ◌>>=◌ now exec statement pure
try_acquire_system_lock-Leads_example =
    try_acquire_system_lock-Leads "romancy_leader" "a" 30 waiting_world
      (try_acquire_system_lock "romancy_leader" "a" 30 waiting_world).1
      ((8000000000, "b", 30) ∷ (37000000000, "b", 30) ∷ []) refl
      (omega arith, b-ne-a, (omega arith, b-ne-a, tt))

-- The worker "a" died at second 5; it is second 7.
abbrev abandoned_world : World
abandoned_world = record world {
  db = record tables {
    instances =
        record (instance_row "w1" running) { locked_by = some "a"; lock_expires_at = some 5 } ∷ [];
  };
  faults = [];
}

cleanup_stale_locks-resumable_example :
    (rows : List WorkflowInstance) × (v : World) × (find_resumable_workflows 10
        (cleanup_stale_locks abandoned_world).1
      ≡ (ok rows, v))
    × (any (by_id "w1") rows ≡ true)
unfolding same
cleanup_stale_locks-resumable_example =
    cleanup_stale_locks-resumable "w1" 9 abandoned_world refl refl (omega arith)
