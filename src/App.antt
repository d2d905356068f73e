-- ===== src/App.antt =====
-- app.go: the runtime. The goroutines of a batch are modelled one after the other, the semaphores
-- that bound them and the hooks are left out, and the context of the app is not done.
pub mod Timers
pub mod Messages
pub mod Cancel
pub mod Tasks
pub mod Results
pub mod Events
use romancy.Base.{String, ◌<>◌, ℕ, Bool, Option, none, some, List, [], ◌∷◌}
use romancy.Errors.{Error, Result, ok, err, wrap, message, not_found}
use romancy.Json.{Json, Value, marshal, null}
use romancy.Storage.Models.{WorkflowInstance, WorkflowStatus, running}
use romancy.Storage.Instances.{get_instance, create_instance}
use romancy.Storage.World.{World, M, Outside, raise, pure, in_context, ◌>>=◌, ◌>>◌, now}
use romancy.Replay.{Workflow, resume_workflow}

-- `App` and its configuration; times are in seconds.
pub record App : Type 0 where
  pub worker_id : String
  pub stale_lock_timeout : ℕ
  pub leader_lease_duration : ℕ
  pub max_timers_per_batch : ℕ
  pub max_messages_per_batch : ℕ
  pub max_workflows_per_batch : ℕ
  pub channel_message_retention : ℕ
  -- the map `workflowRunners`
  pub workflow_runners : String → Option Workflow
  -- the map `eventHandlers`, from the type of an event to the name of a workflow
  pub event_handlers : String → Option String
  -- whether an activity's name has an executor in the global registry of compensations
  pub has_executor : String → Bool
  -- whether the engine was given a runner of compensations
  pub has_runner : Bool

-- What a task returns; `none` means that the fuel ran out.
abbrev pub Outcome : Type 0
Outcome = Option (Result (Unit {0}) × World)

abbrev pub not_registered : String → Error
not_registered workflow_name = message ("workflow " <> (workflow_name <> " not registered"))

module _ (o : Outside) (app : App) (fuel : ℕ) where
  -- With the workflow's runner, the engine is asked.
  abbrev pub run_registered : String → String → Option Workflow → World → Outcome
  run_registered instance_id workflow_name none w = some (err (not_registered workflow_name), w)
  run_registered instance_id workflow_name (some wf) w =
      resume_workflow o instance_id app.worker_id app.has_runner fuel wf w

  abbrev pub resume_found : String → Result (Option WorkflowInstance) × World → Outcome
  resume_found instance_id (err e, w) = some (err (wrap "failed to get instance" e), w)
  resume_found instance_id (ok none, w) =
      some (err (message ("instance " <> (instance_id <> " not found"))), w)
  resume_found instance_id (ok (some r), w) =
      run_registered instance_id r.workflow_name (app.workflow_runners r.workflow_name) w

  -- `resumeWorkflow`, and `resumeWorkflowWithLock`
  unfoldable pub resume_instance : String → World → Outcome
  resume_instance instance_id w = resume_found instance_id (get_instance instance_id w)

  -- `runWorkflow`
  unfoldable pub run_instance : String → String → World → Outcome
  run_instance instance_id workflow_name w =
      run_registered instance_id workflow_name (app.workflow_runners workflow_name) w

-- A batch: the errors of its members are only logged.
abbrev pub after_member : (World → Outcome) → Outcome → Outcome
after_member rest none = none
after_member rest (some (r, v)) = rest v

unfoldable pub each : {A : Type 0} → (A → World → Outcome) → List A → World → Outcome
each f [] w = some (ok tt, w)
each f (a ∷ rows) w = after_member (each f rows) (f a w)
