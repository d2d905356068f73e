-- ===== src/MessageTests.antt =====
-- A competing channel and a cancelled workflow, and the theorems at them.
use romancy.Base.{any, List, arith, some, true, ◌≡◌, refl, same, itoa, none, [], ◌∷◌}
use romancy.Storage.Models.{competing}
use romancy.Storage.World.{World}
use romancy.Operations.Receive.{receive}
use romancy.Operations.Receive.Claimed.{receive-claimed}
use romancy.Activity.{get_cached_result}
use romancy.App.Cancel.{cancel_workflow}
use romancy.App.Cancel.Done.{CancelledIfOk, cancel_workflow-CancelledIfOk}
use romancy.Operations.Events.{EventDecoder, convert_to_received_event}
use romancy.App.Messages.{CloudEvent, event_json}
use romancy.App.Events.Waited.{as_received, convert_to_received-event}
use romancy.Json.{num, str, null, obj, field, end}
use romancy.Json.Reread.{IsExact}
use romancy.Errors.{ok}
use romancy.Json.Reread.{IsExact}
use romancy.Errors.{timer}
use romancy.Storage.Models.{TimerSubscription}
use romancy.Storage.Timers.{is_timer, find_expired_timers}
use romancy.Replay.{handle_suspend_signal}
use romancy.Replay.Suspended.{handle_suspend_signal-find_expired}
use romancy.ReplayTests.{shop}
use romancy.Operations.Transactions.{Transaction, publish_in_transaction, commit_transaction}
use romancy.Operations.Transactions.Deferred.{Ends, publish_in_transaction-commit}
use romancy.Json.Reread.{IsExact}
use romancy.Errors.{Error, err}
use romancy.Tests.{instance_row}
use romancy.Storage.Models.{running, completed}
use romancy.Replay.{complete_workflow}
use romancy.Json.{encodable}
use romancy.App.Results.{get_workflow_result}
use romancy.App.Results.Completed.{complete_workflow-get_workflow_result}
use romancy.AppTests.{app, subscription, posted, texts, waiting_world, reader}

-- The message 4 waits in a competing channel, and another instance has claimed it.
abbrev claimed_world : World
claimed_world = record waiting_world {
  db = record (waiting_world.db) {
    subscriptions = record subscription { mode = competing } ∷ [];
    messages = record (posted 4) { message_id = "7-7" } ∷ [];
    claims = record { message_id = "4"; instance_id = "w2" } ∷ [];
  };
}

receive-claimed_example : receive 9 texts "news" none reader claimed_world ≡ none
unfolding same get_cached_result itoa
receive-claimed_example =
    receive-claimed 9 texts "news" none reader claimed_world
      (record subscription { mode = competing }) (record (posted 4) { message_id = "7-7" }) [] refl
      (λ i. refl) refl refl refl refl

cancel_workflow-CancelledIfOk_example :
    CancelledIfOk "w1" (cancel_workflow shop app "w1" waiting_world)
cancel_workflow-CancelledIfOk_example = cancel_workflow-CancelledIfOk shop app "w1" waiting_world

abbrev paid : CloudEvent
paid = record {
  id = "e1";
  event_type = "order.paid";
  source = "bank";
  spec_version = "1.0";
  time = some "2026-01-02T03:04:05Z";
  data_schema = "";
  subject = "42";
  payload = some (num 5);
  extensions = some (obj (field "region" (str "eu") end));
  target = "";
}

abbrev numbers : EventDecoder
numbers = record { decode = λ j. some j; zero = null; parses = λ s. true; time_of = λ s. 0 }

convert_to_received-event_example :
    convert_to_received_event numbers (event_json paid) ≡ ok (as_received paid (num 5))
unfolding IsExact
convert_to_received-event_example =
    convert_to_received-event numbers paid (num 5) refl refl tt (omega arith) (tt, tt)

handle_suspend_signal-find_expired_example :
    let v : World =
      (handle_suspend_signal "w1" "a" (timer "sleep:1" "sleep:1" 9) waiting_world).1 in
    (rows : List TimerSubscription) × (u : World) × (find_expired_timers 10
        (record v { clock = 9000000001 })
      ≡ (ok rows, u))
    × (any (is_timer "w1" "sleep:1") rows ≡ true)
unfolding same
handle_suspend_signal-find_expired_example =
    handle_suspend_signal-find_expired "w1" "a" "sleep:1" "sleep:1" 9 9 9000000001 waiting_world
      refl refl refl (omega arith) (omega arith)

complete_workflow-get_workflow_result_example :
    let out = complete_workflow shop "w1" "a" true (encodable (num 5)) waiting_world in
    (out.0 ≡ ok tt)
    × ((get_workflow_result (λ j. some j) "w1" out.1).0
        ≡ ok (record {
          instance_id = "w1";
          status = completed;
          output = some (num 5);
          failure = none;
        }))
unfolding same
complete_workflow-get_workflow_result_example =
    complete_workflow-get_workflow_result shop "w1" "a" true (num 5) (num 5) (λ j. some j)
      (instance_row "w1" running) waiting_world refl refl refl

abbrev opened_transaction : Transaction
opened_transaction = record {
  world = waiting_world;
  saved = waiting_world.db;
  is_open = true;
  callbacks = [];
}

publish_in_transaction-commit_example :
    let out =
      publish_in_transaction "failed to publish to channel" "news"
        (str "hello")
        none
        opened_transaction in
    ((e : Error) → out.0 ≡ err e → out.1.world.db ≡ waiting_world.db)
    × (out.0 ≡ ok tt → Ends "news" (str "hello") none opened_transaction (commit_transaction out.1))
publish_in_transaction-commit_example =
    publish_in_transaction-commit "news" (str "hello") none opened_transaction
      "failed to publish to channel" refl
