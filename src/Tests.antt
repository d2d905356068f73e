-- ===== src/Tests.antt =====
-- A small database, and the theorems of the library at it.
use romancy.Base.{
  ◌≡◌, List, String, ℕ, refl, ◌≢◌, inr, true, false, none, some, [], ◌∷◌, arith, select, subst, ap,
  ◌≟◌, same,
}
use romancy.Json.{get_field, str, num, obj, field, end}
use romancy.Errors.{err, message}
use romancy.Storage.Models.{
  WorkflowInstance, WorkflowStatus, running, HistoryEvent, HistoryEventType, activity_completed,
  compensation_executed, CompensationEntry, Db, no_rows, ChannelMessage,
}
use romancy.Storage.World.{World, Outside}
use romancy.Storage.Instances.Rows.{DistinctKeys}
use romancy.Storage.Locks.{try_acquire_lock}
use romancy.Storage.Locks.Exclusion.{Acquires, try_acquire_lock-Acquires}
use romancy.Storage.Locks.Schedules.{acquires, releases, cleans_up, run_calls, Held, run_calls-Held}
use romancy.Storage.History.{of_instance}
use romancy.Storage.History.Iterator.{collect, new_history_iterator}
use romancy.Storage.History.Replayed.{Rising, Yields, collect-new_history_iterator}
use romancy.Storage.Instances.{cancel_instance}
use romancy.Storage.Instances.Cancelled.{Cancels, cancel_instance-Cancels}
use romancy.Storage.Channels.{message_ref, unclaimed, claim_channel_message}
use romancy.Storage.Channels.Claimed.{claim_channel_message-unclaimed}
use romancy.Storage.History.Numbered.{Numbered}
use romancy.Storage.History.Kept.{
  HistoryCall, appends, archives, delivers, run_history_calls, run_history_calls-Numbered,
}
use romancy.Saga.{executed_ids, executed_from, execute_compensations}
use romancy.Saga.Paging.{Finds, executed_from-history}
use romancy.Saga.Lifo.{Compensates, execute_compensations-Compensates}

abbrev pub instance_row : String → WorkflowStatus → WorkflowInstance
instance_row id status = record {
  instance_id = id;
  workflow_name = "order";
  framework = "go";
  status = status;
  input_data = str "book";
  output_data = none;
  current_activity_id = none;
  source_hash = "h";
  owner_service = "shop";
  locked_by = none;
  locked_at = none;
  lock_expires_at = none;
  started_at = 0;
  updated_at = 0;
}

abbrev pub event : ℕ → String → String → HistoryEventType → HistoryEvent
event n id activity_id event_type = record {
  id = n;
  instance_id = id;
  activity_id = activity_id;
  event_type = event_type;
  event_data = obj (field "compensation_id" (num 1) end);
  data_type = "json";
  created_at = 0;
}

abbrev entry : ℕ → String → CompensationEntry
entry n name = record {
  id = n;
  instance_id = "w1";
  activity_id = name;
  activity_name = name;
  args = num n;
  created_at = n;
}

abbrev pub tables : Db
tables = record no_rows {
  instances = instance_row "w1" running ∷ instance_row "w2" running ∷ [];
  history =
      event 1 "w1" "reserve:1" activity_completed
      ∷ event 2 "w2" "reserve:1" activity_completed
      ∷ event 5 "w1" "compensation:1" compensation_executed
      ∷ [];
  next_history_id = 6;
  compensations = entry 1 "reserve" ∷ entry 2 "charge" ∷ entry 3 "ship" ∷ [];
  next_compensation_id = 4;
}

abbrev pub world : World
world = record {
  db = tables;
  clock = 7000000000;
  tick = 41;
  faults = false ∷ false ∷ [];
  calls = [];
}

pub tables-DistinctKeys : DistinctKeys tables.instances
unfolding same
tables-DistinctKeys = (refl, (refl, tt))

try_acquire_lock-Acquires_example :
    Acquires "w1" "worker" 300 world (try_acquire_lock "w1" "worker" 300 world)
try_acquire_lock-Acquires_example =
    try_acquire_lock-Acquires "w1" "worker" 300 world tables-DistinctKeys

b-ne-a : ◌≢◌ {A = String} "b" "a"
unfolding same
b-ne-a e = subst (λ t. elim t [ true ↦ ⊥ | false ↦ Unit {0} ]) (ap (λ s. s ≟ "a") e) tt

abbrev pub held_world : World
held_world = record world {
  db = record tables {
    instances =
        record (instance_row "w1" running) { locked_by = some "a"; lock_expires_at = some 20 } ∷ [];
  };
}

run_calls-Held_example :
    Held "w1" "a" 20
      (run_calls
        ((8000000000, acquires "w1" "b" 9)
          ∷ (9000000000, releases "w1" "b")
          ∷ (20000000000, cleans_up)
          ∷ [])
        held_world).db
unfolding same
run_calls-Held_example =
    run_calls-Held "w1" "a" 20
      ((8000000000, acquires "w1" "b" 9)
        ∷ (9000000000, releases "w1" "b")
        ∷ (20000000000, cleans_up)
        ∷ [])
      held_world (omega arith, inr b-ne-a, (omega arith, inr b-ne-a, (omega arith, tt, tt)))
      (refl, refl)

pub tables-Rising : Rising 0 tables.history
tables-Rising = (omega arith, (omega arith, (omega arith, tt)))

collect-new_history_iterator_example :
    Yields
      (select (of_instance "w1") tables.history)
      (collect 4 (new_history_iterator "w1" 0) world)
unfolding same
collect-new_history_iterator_example =
    collect-new_history_iterator "w1" 0 4 world tables-Rising (omega arith)

executed_from-history_example :
    Finds
      (executed_ids (select (of_instance "w1") tables.history))
      world
      (executed_from 4 "w1" 0 world)
unfolding same
executed_from-history_example = executed_from-history "w1" 4 world tables-Rising (omega arith)

-- Code whose every call fails.
abbrev broken : Outside
broken = record {
  perform = λ name input n. err (message "down");
  compensate = λ name args n. err (message "down");
  deliver = λ id n. err (message "down");
  interrupts = λ n. false;
}

execute_compensations-Compensates_example :
    Compensates []
      (entry 3 "ship" ∷ entry 2 "charge" ∷ [])
      (execute_compensations broken true "w1" world)
unfolding executed_ids same get_field
execute_compensations-Compensates_example =
    execute_compensations-Compensates broken "w1" world tables-Rising (
      (omega arith, omega arith, (omega arith, omega arith, tt)),
      ((omega arith, omega arith, tt), (tt, tt)),
    )

cancel_instance-Cancels_example : Cancels "w1" world (cancel_instance "w1" world)
cancel_instance-Cancels_example = cancel_instance-Cancels "w1" world tables-DistinctKeys

abbrev offer : ChannelMessage
unfolding message_ref
offer = record {
  id = 1;
  channel = "jobs";
  message_id = message_ref 7000000001 7000000042;
  payload = num 4;
  metadata = none;
  published_at = 7;
}

abbrev jobs_world : World
jobs_world = record world { db = record tables { messages = offer ∷ [] } }

claim_channel_message-unclaimed_example :
    unclaimed "jobs" (claim_channel_message 1 "w1" jobs_world).1.db ≡ unclaimed "jobs" jobs_world.db
unfolding message_ref offer
claim_channel_message-unclaimed_example =
    claim_channel_message-unclaimed "jobs" "w1" 1 jobs_world ((7000000001, 7000000042) ∷ [])
      (refl, tt)

tables-Numbered : Numbered tables
unfolding same
tables-Numbered = (
  (refl, (refl, (refl, tt))),
  tables-Rising,
  (omega arith, (omega arith, (omega arith, tt))),
  omega arith,
)

abbrev history_calls : List (ℕ × HistoryCall)
history_calls =
    (8000000000, appends (event 0 "w1" "charge:1" activity_completed))
    ∷ (9000000000, delivers "w2" "jobs" offer "worker" 30)
    ∷ (9000000000, archives "w1")
    ∷ []

run_history_calls-Numbered_example : Numbered (run_history_calls history_calls jobs_world).db
run_history_calls-Numbered_example =
    run_history_calls-Numbered history_calls jobs_world tables-Numbered
