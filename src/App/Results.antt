-- ===== src/App/Results.antt =====
-- workflow.go and app.go: how a workflow is started from outside, and what is known of it.
pub mod Completed
use romancy.Base.{String, ℕ, Bool, true, false, Option, none, some, List, [], ◌∷◌, ite, same}
use romancy.Errors.{Error, Result, ok, err, wrap, message, not_found}
use romancy.Json.{Json, Value, marshal, str, member}
use romancy.Storage.Models.{
  WorkflowInstance, WorkflowStatus, running, completed, failed, HistoryEvent, HistoryEventType,
  workflow_failed,
}
use romancy.Storage.Instances.{get_instance, create_instance}
use romancy.Storage.History.{get_history_paginated}
use romancy.Storage.World.{World, M, pure, raise, in_context, ◌>>=◌, ◌>>◌, now}

abbrev pub new_instance : String → String → Json → ℕ → WorkflowInstance
new_instance instance_id workflow_name input t = record {
  instance_id = instance_id;
  workflow_name = workflow_name;
  framework = "";
  status = running;
  input_data = input;
  output_data = none;
  current_activity_id = none;
  source_hash = "";
  owner_service = "";
  locked_by = none;
  locked_at = none;
  lock_expires_at = none;
  started_at = t;
  updated_at = t;
}

abbrev pub created : String → String → Option Json → M String
created id workflow_name none =
    raise (wrap "failed to serialize input" (message "json: unsupported type"))
created id workflow_name (some input) = do
  t ← now
  in_context "failed to create instance" (create_instance (new_instance id workflow_name input t))
  pure id

-- `startWorkflow` up to the goroutine that calls `runWorkflow`; `generated` is the new UUID.
unfoldable pub start_workflow : String → String → String → Value → M String
start_workflow generated given workflow_name input =
    created (ite (same given "") generated given) workflow_name (marshal input)

-- `App.GetInstance`
abbrev pub or_not_found : String → Option WorkflowInstance → M WorkflowInstance
or_not_found instance_id none = raise (not_found instance_id)
or_not_found instance_id (some r) = pure r

unfoldable pub get_app_instance : String → M WorkflowInstance
get_app_instance instance_id = get_instance instance_id >>= or_not_found instance_id

abbrev pub is_failure : HistoryEventType → Bool
is_failure workflow_failed = true
is_failure _ = false

-- `eventData["error"].(string)`
abbrev pub error_of : HistoryEvent → Option String
error_of h = text_or_none (member "error" h.event_data)
  where
    text_or_none : Option Json → Option String
    text_or_none (some (str s)) = some s
    text_or_none _ = none

-- The loop from the last event to the first.
unfoldable pub last_error : List HistoryEvent → Option String
last_error [] = none
last_error (h ∷ hs) = or_first (last_error hs)
  where
    own : Bool → Option String
    own true = error_of h
    own false = none

    or_first : Option String → Option String
    or_first (some s) = some s
    or_first none = own (is_failure h.event_type)

abbrev pub text_or_empty : Option String → String
text_or_empty none = ""
text_or_empty (some s) = s

abbrev pub error_in : Result (List HistoryEvent × Bool) × World → String × World
error_in (err e, w) = ("", w)
error_in (ok (hs, more), w) = (text_or_empty (last_error hs), w)

-- `getWorkflowErrorFromHistory`, which looks at the first 1000 events
unfoldable pub get_workflow_error : String → World → String × World
get_workflow_error instance_id w = error_in (get_history_paginated instance_id 0 1000 w)

-- `WorkflowResult`; `output` is the stored one before it is decoded into its type.
pub record WorkflowResult : Type 0 where
  pub instance_id : String
  pub status : WorkflowStatus
  pub output : Option Json
  pub failure : Option Error

abbrev pub failure_in : String × World → Option Error × World
failure_in (text, w) = (ite (same text "") none (some (message text)), w)

abbrev pub failure_of : WorkflowInstance → WorkflowStatus → World → Option Error × World
failure_of r failed w = failure_in (get_workflow_error r.instance_id w)
failure_of r _ w = (none, w)

abbrev pub output_of : WorkflowInstance → WorkflowStatus → Option Json
output_of r completed = r.output_data
output_of r _ = none

-- `decode` is `json.Unmarshal` into the type of the output.
module _ (decode : Json → Option Json) where
  abbrev pub decoded_output : Option Json → Result (Option Json)
  decoded_output none = ok none
  decoded_output (some j) = elim (decode j) [
    | none ↦ err (wrap "failed to deserialize output" (message "json: cannot unmarshal"))
    | some v ↦ ok (some v)
  ]

  abbrev pub with_output :
      WorkflowInstance → Option Error → Result (Option Json) → Result WorkflowResult
  with_output r failure (err e) = err e
  with_output r failure (ok output) = ok (record {
    instance_id = r.instance_id;
    status = r.status;
    output = output;
    failure = failure;
  })

  abbrev pub result_found : Result WorkflowInstance × World → Result WorkflowResult × World
  result_found (err e, w) = (err e, w)
  result_found (ok r, w) =
      let (failure, v) = failure_of r r.status w in
      (with_output r failure (decoded_output (output_of r r.status)), v)

  -- `GetWorkflowResult`
  unfoldable pub get_workflow_result : String → M WorkflowResult
  get_workflow_result instance_id w = result_found (get_app_instance instance_id w)
