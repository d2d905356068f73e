-- ===== src/App/Events.antt =====
-- app.go: an event that comes in over HTTP, once it has been decoded.
pub mod Waited
use romancy.Base.{String, Option, none, some}
use romancy.Json.{Json, null, Value, encodable}
use romancy.Json.Reread.{reread}
use romancy.Errors.{ok}
use romancy.Storage.World.{World, M, ignore, pure, ◌>>=◌, ◌>>◌}
use romancy.App.{App}
use romancy.App.Messages.{CloudEvent, deliver_event_to_waiting_workflows, ignored}
use romancy.App.Results.{start_workflow}

abbrev event_input : Option Json → Value
event_input none = encodable null
event_input (some j) = encodable (reread j)

abbrev start_handler : String → CloudEvent → Option String → M (Unit {0})
start_handler generated e none = pure tt
start_handler generated e (some workflow_name) =
    ignored (start_workflow generated "" workflow_name (event_input e.payload))

-- `processCloudEvent`, up to the goroutine of the workflow that it starts; errors are only logged.
unfoldable pub process_cloud_event : String → App → CloudEvent → M (Unit {0})
unfolding deliver_event_to_waiting_workflows start_workflow
process_cloud_event generated app e = do
  ignore (deliver_event_to_waiting_workflows app e)
  start_handler generated e (app.event_handlers e.event_type)
