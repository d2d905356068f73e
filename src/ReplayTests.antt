-- ===== src/ReplayTests.antt =====
-- A small workflow and a small outbox, and the theorems on the engine and the relayer at them.
use romancy.Base.{
  arith, ℕ, ◌∷◌, reject, String, refl, ◌≟◌, true, false, none, [], arith, same, Bool,
}
use romancy.Json.{str, num, Value, encodable}
use romancy.Errors.{Result, ok, err, message, terminal, error_text}
use romancy.Storage.World.{World, Outside}
use romancy.Activity.{Activity, execute_with_retry}
use romancy.Activity.Attempts.{Attempted, execute_with_retry-Attempted}
use romancy.Replay.{Workflow, returns, fails, executes, run_workflow, new_execution_context}
use romancy.Replay.Recorded.{Replayable}
use romancy.Replay.Repeated.{Repeatable, Replays, run_workflow-Replays}
use romancy.Tests.{world, tables, held_world}
use romancy.Storage.Models.{OutboxEvent, OutboxStatus}
use romancy.Relayer.{is_exhausted, process_pending_events}
use romancy.Relayer.Rounds.{RelayerConfig, new_relayer}
use romancy.Relayer.Sent.{batch, Relays, process_pending_events-Relays}
use romancy.Replay.{resume_workflow}
use romancy.Replay.Locked.{Refused, resume_workflow-Refused}

-- Reservations succeed, payments are declined.
abbrev pub answers : Bool → Result Value
answers true = err (terminal (message "declined"))
answers false = ok (encodable (str "done"))

abbrev pub shop : Outside
shop = record {
  perform = λ name input n. answers (name ≟ "charge");
  compensate = λ name args n. ok tt;
  deliver = λ id n. ok tt;
  interrupts = λ n. false;
}

abbrev pub reserve : Activity
reserve = record {
  name = "reserve";
  retry_policy = none;
  transactional = true;
  has_compensation = true;
  output_type = "string";
}

abbrev pub charge : Activity
charge = record {
  name = "charge";
  retry_policy = none;
  transactional = false;
  has_compensation = false;
  output_type = "string";
}

abbrev pub ending : Result Value → Workflow
ending (ok v) = returns v
ending (err e) = fails (message (error_text e))

abbrev pub order : Workflow
order = executes reserve "" (str "book") λ r. executes charge "pay" (num 5) ending

reserve-Replayable : Replayable shop reserve
unfolding same
reserve-Replayable input n = refl

charge-Replayable : Replayable shop charge
unfolding same
charge-Replayable input n = refl

ending-Repeatable : (r : Result Value) → Repeatable shop (ending r)
ending-Repeatable (ok v) = tt
ending-Repeatable (err e) = tt

order-Repeatable : Repeatable shop order
unfolding error_text
order-Repeatable =
    (reserve-Replayable, (λ e. refl), (λ r. (charge-Replayable, (λ e. refl), ending-Repeatable)))

order_world : World
order_world = record world { faults = [] }

run_workflow-Replays_example :
    Replays order "w9" (run_workflow shop 3 order (new_execution_context "w9" []) order_world)
unfolding same order_world
run_workflow-Replays_example =
    run_workflow-Replays shop 3 order "w9" order_world order-Repeatable refl refl
      (refl, (refl, (refl, tt)))

execute_with_retry-Attempted_example :
    Attempted shop charge (num 5) 0 world (execute_with_retry shop 3 charge (num 5) 0 world)
execute_with_retry-Attempted_example =
    execute_with_retry-Attempted shop 3 charge (num 5) world (omega arith) (omega arith)

resume_workflow-Refused_example :
    Refused held_world (resume_workflow shop "w1" "b" true 3 order held_world)
unfolding same
resume_workflow-Refused_example =
    resume_workflow-Refused shop "w1" "b" true 3 order held_world (refl, tt) refl

abbrev outbox_event : String → ℕ → OutboxEvent
outbox_event id retry_count = record {
  event_id = id;
  event_type = "order.created";
  event_source = "shop";
  event_data = num 1;
  content_type = "application/json";
  status = OutboxStatus.pending;
  retry_count = retry_count;
  published_at = none;
  created_at = 0;
}

abbrev outbox_world : World
outbox_world = record world {
  db = record tables { outbox = outbox_event "a" 0 ∷ outbox_event "b" 5 ∷ [] };
}

process_pending_events-Relays_example :
    Relays outbox_world
      (batch 100 outbox_world.db)
      (reject (is_exhausted 5) (batch 100 outbox_world.db))
      (process_pending_events shop 5 100 outbox_world)
process_pending_events-Relays_example =
    process_pending_events-Relays shop 5 100 outbox_world (λ n. refl)

-- The interval is one second, the maximum thirty.
abbrev relayer : RelayerConfig
unfolding new_relayer
relayer =
    new_relayer (record { poll_interval = 0; batch_size = 0; max_retries = 0; max_backoff = 0 })
