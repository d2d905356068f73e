-- ===== src/Replay.antt =====
-- internal/replay/engine.go: a workflow is run from the beginning each time, and answers from the
-- history in place of the activities that it has recorded. The hooks are left out.
pub mod Recorded
pub mod Executed
pub mod Chosen
pub mod Loaded
pub mod Locked
pub mod Repeated
pub mod Answered
pub mod Delivered
pub mod Suspended
use romancy.Base.{
  String, ◌<>◌, ℕ, ◌+◌, Bool, true, false, Option, none, some, List, [], ◌∷◌, ltb, ◌≟◌, suc, length,
  if◌then◌else◌,
}
use romancy.Json.{Json, Value, str, obj, field, end, marshal, text_of}
use romancy.Errors.{
  Error, Result, ok, err, wrap, message, error_text, SuspendSignal, as_suspend_signal, timer,
  channel_message, recur,
}
use romancy.Storage.Models.{
  Db, HistoryEvent, HistoryEventType, activity_completed, activity_failed, channel_message_received,
  message_timeout, workflow_failed, running, completed, failed, waiting_for_timer, recurred,
}
use romancy.Storage.Instances.{update_instance_status, update_instance_output}
use romancy.Storage.Locks.{try_acquire_lock, release_lock}
use romancy.Storage.History.{append_history, archive_history}
use romancy.Storage.History.Iterator.{new_history_iterator, collect}
use romancy.Storage.Timers.{register_timer_subscription}
use romancy.Storage.Channels.{register_channel_receive_and_release_lock}
use romancy.Storage.Groups.{leave_all_groups}
use romancy.Storage.Delivery.{cleanup_instance_subscriptions}
use romancy.Storage.World.{World, M, Outside, pure, raise, in_context, ignore, ◌>>=◌, ◌>>◌, now}
use romancy.Saga.{execute_compensations}
use romancy.Operations.{Operation, perform_operation}
use romancy.Activity.{
  Activity, ExecutionContext, Cached, decoded, Step, put, activity_event, execute,
}

-- `WorkflowRunner`: the code of a workflow, as the engine sees it. It returns, fails (with a
-- suspend signal too), or executes an activity or performs another operation, and goes on with what
-- that returns. Code that loops for ever has no such tree and is left out.
pub data Workflow : Type 0 where
  returns : Value → Workflow
  fails : Error → Workflow
  executes : Activity → (given_id : String) → Json → (Result Value → Workflow) → Workflow
  performs : Operation → (Result Value → Workflow) → Workflow

-- The loop's `switch` on an event.
unfoldable pub load_event : HistoryEvent → ExecutionContext → ExecutionContext
load_event h ec = elim h.event_type [
  | activity_completed ↦ with_result
  | channel_message_received ↦ with_result
  | activity_failed ↦ with_error
  | message_timeout ↦ with_error
  | _ ↦ ec
]
  where
    with_result : ExecutionContext
    with_result =
        if h.data_type ≟ "json"
        then record ec {
          cached_results = put h.activity_id (some (decoded h.event_data)) ec.cached_results;
        }
        else ec

    with_error : ExecutionContext
    with_error = record ec {
      cached_errors = put h.activity_id (some (message (text_of h.event_data))) ec.cached_errors;
    }

unfoldable pub load_history : List HistoryEvent → ExecutionContext → ExecutionContext
load_history [] ec = ec
load_history (h ∷ hs) ec = load_history hs (load_event h ec)

abbrev pub empty_context : String → Bool → ExecutionContext
empty_context instance_id is_replaying = record {
  instance_id = instance_id;
  is_replaying = is_replaying;
  activity_counts = λ key. 0;
  cached_results = λ key. none;
  cached_errors = λ key. none;
  cache_hits = 0;
  new_activities = 0;
  direct_subscriptions = λ key. false;
}

unfoldable pub new_execution_context : String → List HistoryEvent → ExecutionContext
new_execution_context instance_id hs =
    load_history hs (empty_context instance_id (ltb 0 (length hs)))

abbrev pub serialized : Value → (Json → M (Unit {0})) → M (Unit {0}) → M (Unit {0})
serialized v use_json cleanup = elim (marshal v) [
  | some j ↦ use_json j
  | none ↦
      (ignore cleanup
        >> raise (wrap "failed to serialize result" (message "json: unsupported type")))
]

unfoldable pub handle_timer_suspend : String → String → String → ℕ → M (Unit {0})
handle_timer_suspend instance_id timer_id activity_id expires_at = do
  in_context "failed to register timer subscription" (
      register_timer_subscription (record {
        id = 0;
        instance_id = instance_id;
        timer_id = timer_id;
        expires_at = expires_at;
        activity_id = activity_id;
      }))
  in_context "failed to update status" (update_instance_status instance_id waiting_for_timer)

abbrev pub timeout_at : ℕ → Option ℕ → Option ℕ
timeout_at t none = none
timeout_at t (some timeout) = some (t + timeout)

-- A timeout is a number of seconds.
unfoldable pub handle_channel_message_suspend :
    String → String → String → String → Option ℕ → M (Unit {0})
handle_channel_message_suspend instance_id worker channel activity_id timeout = do
  t ← now
  in_context "failed to register channel receive" (
      register_channel_receive_and_release_lock instance_id channel worker activity_id
        (timeout_at t timeout))

abbrev pub recur_input : Value → (Json → M (Unit {0})) → M (Unit {0})
recur_input v use_json = elim (marshal v) [
  | some j ↦ use_json j
  | none ↦ raise (wrap "failed to serialize recur input" (message "json: unsupported type"))
]

unfoldable pub handle_recur_suspend : String → Value → M (Unit {0})
handle_recur_suspend instance_id new_input = do
  in_context "failed to archive history" (archive_history instance_id)
  in_context "failed to cleanup subscriptions" (cleanup_instance_subscriptions instance_id)
  in_context "failed to leave groups" (leave_all_groups instance_id)
  recur_input new_input λ j. do
    in_context "failed to record recur event"
        (append_history (activity_event instance_id "recur" activity_completed j))
    in_context "failed to update status" (update_instance_status instance_id recurred)

unfoldable pub handle_suspend_signal : String → String → SuspendSignal → M (Unit {0})
unfolding handle_timer_suspend handle_channel_message_suspend handle_recur_suspend
handle_suspend_signal instance_id worker (timer timer_id activity_id expires_at) =
    handle_timer_suspend instance_id timer_id activity_id expires_at
handle_suspend_signal instance_id worker (channel_message channel activity_id timeout) =
    handle_channel_message_suspend instance_id worker channel activity_id timeout
handle_suspend_signal instance_id worker (recur new_input) =
    handle_recur_suspend instance_id new_input

module _ (o : Outside) where
  abbrev pub continued :
      (Result Value → ExecutionContext → World → Option Step) → Option Step → Option Step
  continued rest none = none
  continued rest (some (r, ec, w)) = rest r ec w

  -- A workflow with what its activities need as fuel for their attempts.
  unfoldable pub run_workflow : ℕ → Workflow → ExecutionContext → World → Option Step
  run_workflow fuel (returns v) ec w = some (ok v, ec, w)
  run_workflow fuel (fails e) ec w = some (err e, ec, w)
  run_workflow fuel (executes a given input k) ec w =
      continued (λ r. run_workflow fuel (k r)) (execute o fuel a given input ec w)
  run_workflow fuel (performs op k) ec w =
      continued (λ r. run_workflow fuel (k r)) (perform_operation fuel op ec w)

  module _ (instance_id worker : String) (has_runner : Bool) where
    -- The workflow has failed: the compensations run, then the failure is noted.
    unfoldable pub fail_workflow : Error → M (Unit {0})
    fail_workflow e = do
      ignore (execute_compensations o has_runner instance_id)
      ignore (
          append_history (
            activity_event instance_id "" workflow_failed
              (obj (field "error" (str (error_text e)) end))))
      ignore (update_instance_status instance_id failed)
      raise e

    unfoldable pub complete_workflow : Value → M (Unit {0})
    complete_workflow v =
        serialized v
          (λ j. do
            in_context "failed to set result" (update_instance_output instance_id j)
            in_context "failed to update status" (update_instance_status instance_id completed))
          (update_instance_status instance_id failed)

    unfoldable pub suspend_or_fail : Error → Option SuspendSignal → M (Unit {0})
    unfolding fail_workflow handle_suspend_signal
    suspend_or_fail e (some sig) = handle_suspend_signal instance_id worker sig
    suspend_or_fail e none = fail_workflow e

    -- What `executeWorkflow` does once the runner has returned.
    unfoldable pub conclude : Result Value → M (Unit {0})
    unfolding complete_workflow
    conclude (ok v) = complete_workflow v
    conclude (err e) = suspend_or_fail e (as_suspend_signal e)

    unfoldable pub concluded : Option Step → Option (Result (Unit {0}) × World)
    unfolding conclude
    concluded none = none
    concluded (some (r, ec, w)) = some (conclude r w)

    abbrev pub run_loaded :
        ℕ
        → Workflow
        → Option (Result (List HistoryEvent) × World)
        → Option (Result (Unit {0}) × World)
    run_loaded fuel wf none = none
    run_loaded fuel wf (some (err e, w)) = some (err (wrap "failed to load history" e), w)
    run_loaded fuel wf (some (ok hs, w)) =
        concluded (run_workflow fuel wf (new_execution_context instance_id hs) w)

    -- `executeWorkflow`, with pages of 1000 events. A page takes an event at least, so one round
    -- more than there are rows is enough.
    unfoldable pub execute_workflow : ℕ → Workflow → World → Option (Result (Unit {0}) × World)
    execute_workflow fuel wf w =
        run_loaded fuel wf
          (collect (suc (length w.db.history)) (new_history_iterator instance_id 1000) w)

    -- `defer func() { _ = ReleaseLock(...) }()`
    unfoldable pub then_release :
        Option (Result (Unit {0}) × World) → Option (Result (Unit {0}) × World)
    unfolding release_lock
    then_release none = none
    then_release (some (r, w)) = some (r, (release_lock instance_id worker w).1)

    abbrev pub run_started :
        ℕ → Workflow → Result (Unit {0}) × World → Option (Result (Unit {0}) × World)
    run_started fuel wf (err e, w) = some (err (wrap "failed to update status" e), w)
    run_started fuel wf (ok _, w) = execute_workflow fuel wf w

    abbrev pub run_locked : ℕ → Workflow → Result Bool × World → Option (Result (Unit {0}) × World)
    run_locked fuel wf (err e, w) = some (err (wrap "failed to acquire lock" e), w)
    run_locked fuel wf (ok false, w) =
        some (err (message ("failed to acquire lock for instance " <> instance_id)), w)
    run_locked fuel wf (ok true, w) =
        then_release (run_started fuel wf (update_instance_status instance_id running w))

    -- `StartWorkflow`, and `ResumeWorkflow`, which has the same body.
    unfoldable pub resume_workflow : ℕ → Workflow → World → Option (Result (Unit {0}) × World)
    resume_workflow fuel wf w = run_locked fuel wf (try_acquire_lock instance_id worker 300 w)
