-- ===== src/App/Cancel.antt =====
-- app.go: the cancellation of a workflow, with a loop of its own over the compensations; and
-- compensation/executor.go, which has another one.
pub mod Compensated
pub mod Done
use romancy.Base.{
  String, ◌<>◌, ℕ, Bool, true, false, Option, none, some, List, [], ◌∷◌, ◌==◌, any, if◌then◌else◌,
}
use romancy.Errors.{Error, Result, ok, err, wrap, message, not_found, not_cancellable, error_text}
use romancy.Json.{Json, Value, marshal}
use romancy.Storage.Models.{
  WorkflowInstance, WorkflowStatus, completed, failed, cancelled, CompensationEntry,
}
use romancy.Storage.Instances.{get_instance, cancel_instance}
use romancy.Storage.Locks.{try_acquire_lock, release_lock}
use romancy.Storage.Compensations.{get_compensations, add_compensation}
use romancy.Storage.World.{World, M, Outside, pure, raise, in_context, finally, ignore, ◌>>=◌, ◌>>◌}
use romancy.Saga.{
  record_compensation_result, attempt, run_compensation, get_executed_compensation_ids, raise_first,
}
use romancy.App.{App}

module _ (o : Outside) (has : String → Bool) where
  -- The loop of app.go knows the last error; an entry with no executor counts as failed.
  abbrev pub after_executor :
      String → CompensationEntry → Option Error → Result (Unit {0}) → M (Option Error)
  after_executor id entry last (ok _) = do
    ignore (record_compensation_result id entry true "")
    pure last
  after_executor id entry last (err e) = do
    ignore (record_compensation_result id entry false (error_text e))
    pure (some e)

  abbrev pub execute_entry : String → CompensationEntry → Option Error → M (Option Error)
  execute_entry id entry last =
      if has entry.activity_name
      then (do r ← attempt (run_compensation o entry); after_executor id entry last r)
      else (do ignore (record_compensation_result id entry false "executor not found"); pure last)

  unfoldable pub execute_entries :
      String → List ℕ → List CompensationEntry → Option Error → M (Option Error)
  unfolding record_compensation_result
  execute_entries id executed [] last = pure last
  execute_entries id executed (entry ∷ entries) last =
      if any (λ n. n == entry.id) executed
      then execute_entries id executed entries last
      else (do last' ← execute_entry id entry last; execute_entries id executed entries last')

  abbrev pub execute_pending : String → List CompensationEntry → M (Unit {0})
  execute_pending id [] = pure tt
  execute_pending id (entry ∷ entries) = do
    executed ← in_context "failed to get executed compensations" (get_executed_compensation_ids id)
    last ← execute_entries id executed (entry ∷ entries) none
    raise_first last

  -- `executeCompensations` of app.go
  unfoldable pub execute_app_compensations : String → M (Unit {0})
  execute_app_compensations id = do
    entries ← in_context "failed to get compensations" (get_compensations id)
    execute_pending id entries

  -- `executeOne` of compensation/executor.go; `has` is its registry.
  unfoldable pub execute_one : CompensationEntry → M (Unit {0})
  execute_one entry =
      if has entry.activity_name
      then run_compensation o entry
      else raise (message ("compensation function not found: " <> entry.activity_name))

  abbrev pub first_of : Option Error → Error → Option Error
  first_of none e = some e
  first_of (some first) e = some first

  abbrev pub after_one :
      String → CompensationEntry → Option Error → Result (Unit {0}) → M (Option Error)
  after_one id entry first (ok _) = do
    ignore (record_compensation_result id entry true "")
    pure first
  after_one id entry first (err e) = do
    ignore (record_compensation_result id entry false (error_text e))
    pure (first_of first e)

  -- The loop of compensation/executor.go knows the first error.
  unfoldable pub run_each_one :
      String → List ℕ → List CompensationEntry → Option Error → M (Option Error)
  unfolding execute_one
  run_each_one id executed [] first = pure first
  run_each_one id executed (entry ∷ entries) first =
      if any (λ n. n == entry.id) executed then run_each_one id executed entries first else (do
        r ← attempt (execute_one entry)
        first' ← after_one id entry first r
        run_each_one id executed entries first')

  -- `Executor.ExecuteCompensations`
  unfoldable pub execute_registered_compensations : String → M (Unit {0})
  execute_registered_compensations id = do
    entries ← in_context "failed to get compensations" (get_compensations id)
    executed ← in_context "failed to get executed compensations" (get_executed_compensation_ids id)
    first ← run_each_one id executed entries none
    raise_first first

-- `Executor.AddCompensation`
unfoldable pub add_entry : String → String → String → Value → M (Unit {0})
unfolding add_compensation
add_entry instance_id activity_id function_name argument = elim (marshal argument) [
  | none ↦ raise (wrap "failed to encode compensation argument" (message "json: unsupported type"))
  | some args ↦ add_compensation (record {
    id = 0;
    instance_id = instance_id;
    activity_id = activity_id;
    activity_name = function_name;
    args = args;
    created_at = 0;
  })
]

-- The error of `CancelInstance` for the callers; the storage returns its error unwrapped.
abbrev pub public_error : Error → Error
public_error not_cancellable = not_cancellable
public_error e = wrap "failed to cancel instance" e

abbrev pub cancelled_or_error : Result (Unit {0}) × World → Result (Unit {0}) × World
cancelled_or_error (ok x, w) = (ok x, w)
cancelled_or_error (err e, w) = (err (public_error e), w)

module _ (o : Outside) (app : App) (id : String) where
  unfoldable pub cancel_locked : M (Unit {0})
  cancel_locked = do
    ignore (execute_app_compensations o app.has_executor id)
    (λ w. cancelled_or_error (cancel_instance id w))

  abbrev pub cancel_with_lock : M (Unit {0})
  cancel_with_lock = do
    acquired ←
        in_context "failed to acquire lock"
          (try_acquire_lock id app.worker_id app.stale_lock_timeout)
    (if acquired
        then finally cancel_locked (release_lock id app.worker_id)
        else raise (message "workflow is locked by another worker"))

  abbrev pub cancel_in_status : WorkflowStatus → M (Unit {0})
  cancel_in_status completed = raise (message "cannot cancel completed workflow")
  cancel_in_status failed = raise (message "cannot cancel failed workflow")
  cancel_in_status cancelled = pure tt
  cancel_in_status _ = cancel_with_lock

  abbrev pub cancel_found : Option WorkflowInstance → M (Unit {0})
  cancel_found none = raise (not_found id)
  cancel_found (some r) = cancel_in_status r.status

  -- `cancelWorkflow`
  unfoldable pub cancel_workflow : M (Unit {0})
  cancel_workflow = do
    found ← in_context "failed to get instance" (get_instance id)
    cancel_found found
