-- ===== src/App/Tasks.antt =====
-- app.go: leader election, the tasks of the leader, and the resumption of workflows.
pub mod Backoff
use romancy.Base.{
  String, ℕ, ◌*◌, ◌^◌, Bool, true, false, Option, none, some, List, ltb, ◌&&◌, not, ◌==◌,
  if◌then◌else◌,
}
use romancy.Errors.{Error, Result, ok, err, wrap}
use romancy.Storage.Models.{WorkflowInstance, running}
use romancy.Storage.Instances.{update_instance_status, find_resumable_workflows}
use romancy.Storage.Locks.{try_acquire_lock, release_lock, cleanup_stale_locks}
use romancy.Storage.Channels.{cleanup_old_channel_messages}
use romancy.Storage.Groups.{try_acquire_system_lock}
use romancy.Storage.World.{World, M, Outside, in_context, on_error, finally, ignore, ◌>>=◌, ◌>>◌}
use romancy.App.{App, Outcome, resume_instance, each}

-- What an app knows of its leadership: `isLeader`, and whether the leader's tasks run.
pub record Leadership : Type 0 where
  pub is_leader : Bool
  pub tasks_running : Bool

abbrev pub elected : Leadership → Result Bool → Leadership
elected l (err e) = l
elected l (ok acquired) =
    if acquired && not l.is_leader
    then record { is_leader = true; tasks_running = true }
    else if not acquired && l.is_leader
    then record { is_leader = false; tasks_running = false }
    else l

-- `tryAcquireLeadership`
unfoldable pub try_acquire_leadership : App → Leadership → World → Leadership × World
try_acquire_leadership app l w =
    let (r, v) =
      try_acquire_system_lock "romancy_leader" app.worker_id app.leader_lease_duration w in
    (elected l r, v)

-- `calculateBackoff`, in nanoseconds; a product that a duration does not hold is left out.
unfoldable pub calculate_backoff : ℕ → ℕ → ℕ → ℕ
calculate_backoff base consecutive_empty max_backoff =
    if consecutive_empty == 0
    then base
    else (let exp : ℕ = if ltb consecutive_empty 5 then consecutive_empty else 5 in
        if ltb max_backoff (base * 2 ^ exp) then max_backoff else base * 2 ^ exp)

module _ (o : Outside) (app : App) (fuel : ℕ) where
  abbrev pub resume_row : WorkflowInstance → World → Outcome
  resume_row r w = resume_instance o app fuel r.instance_id w

  abbrev pub resume_rows : Result (List WorkflowInstance) × World → Outcome
  resume_rows (err e, w) = some (err e, w)
  resume_rows (ok rows, w) = each resume_row rows w

  -- `cleanupStaleLocks`
  unfoldable pub cleanup_and_resume : World → Outcome
  cleanup_and_resume w = resume_rows (cleanup_stale_locks w)

  -- `resumeResumableWorkflows`; the count of the workflows is left out.
  unfoldable pub resume_resumable_workflows : World → Outcome
  resume_resumable_workflows w = resume_rows (
      in_context "failed to find resumable workflows"
        (find_resumable_workflows app.max_workflows_per_batch) w)

  abbrev pub recurred_updated : String → Result (Unit {0}) × World → Outcome
  recurred_updated id (err e, w) = some (err e, w)
  recurred_updated id (ok _, w) = resume_instance o app fuel id (release_lock id app.worker_id w).1

  abbrev pub recurred_locked : String → Result Bool × World → Outcome
  recurred_locked id (err e, w) = some (err e, w)
  recurred_locked id (ok false, w) = some (ok tt, w)
  recurred_locked id (ok true, w) = recurred_updated id (
      in_context "failed to update status"
        (on_error (update_instance_status id running) (release_lock id app.worker_id)) w)

  -- `handleRecurredWorkflow`
  unfoldable pub handle_recurred_workflow : String → World → Outcome
  handle_recurred_workflow id w =
      recurred_locked id (try_acquire_lock id app.worker_id app.stale_lock_timeout w)

-- `cleanupChannelMessages`
unfoldable pub cleanup_channel_messages : App → M (Unit {0})
cleanup_channel_messages app =
    in_context "failed to cleanup channel messages"
      (cleanup_old_channel_messages app.channel_message_retention)
