-- ===== src/App/Timers.antt =====
-- app.go: the timers that have expired.
pub mod Woken
use romancy.Base.{String, ℕ, Bool, true, false, Option, none, some, List}
use romancy.Errors.{Error, Result, ok, err, wrap}
use romancy.Json.{Json, bool, num, str, obj, field, end, Value, encodable}
use romancy.Storage.Models.{WorkflowInstance, TimerSubscription}
use romancy.Storage.Instances.{get_instance}
use romancy.Storage.Locks.{try_acquire_lock, release_lock}
use romancy.Storage.Timers.{remove_timer_subscription, find_expired_timers}
use romancy.Storage.World.{World, M, Outside, in_context, on_error, ◌>>=◌, ◌>>◌}
use romancy.Activity.{record_activity_result}
use romancy.App.{App, Outcome, resume_instance, each}

-- The times are written as their seconds.
abbrev pub timer_json : TimerSubscription → Json
timer_json t = obj (
    field "completed" (bool true)
      (field "expires_at" (num t.expires_at) (field "timer_id" (str t.timer_id) end)))

-- The timer is removed and its completion recorded, with the lock held; a failure releases it.
unfoldable pub record_timer : String → TimerSubscription → M (Unit {0})
unfolding record_activity_result
record_timer worker t = do
  on_error (remove_timer_subscription t.instance_id t.timer_id) (release_lock t.instance_id worker)
  in_context "failed to record timer result" (
      on_error (record_activity_result t.instance_id t.timer_id (ok (encodable (timer_json t))))
        (release_lock t.instance_id worker))

module _ (o : Outside) (app : App) (fuel : ℕ) where
  -- `resumeWorkflowWithLock` after the record
  abbrev pub timer_recorded : TimerSubscription → Result (Unit {0}) × World → Outcome
  timer_recorded t (err e, w) = some (err e, w)
  timer_recorded t (ok _, w) = resume_instance o app fuel t.instance_id w

  abbrev pub timer_locked : TimerSubscription → Result Bool × World → Outcome
  timer_locked t (err e, w) = some (err e, w)
  timer_locked t (ok false, w) = some (ok tt, w)
  timer_locked t (ok true, w) = timer_recorded t (record_timer app.worker_id t w)

  abbrev pub if_registered : TimerSubscription → Bool → World → Outcome
  if_registered t false w = some (ok tt, w)
  if_registered t true w =
      timer_locked t (try_acquire_lock t.instance_id app.worker_id app.stale_lock_timeout w)

  abbrev pub is_registered : String → Bool
  is_registered workflow_name = elim (app.workflow_runners workflow_name) [
    | none ↦ false
    | some wf ↦ true
  ]

  abbrev pub timer_found : TimerSubscription → Result (Option WorkflowInstance) × World → Outcome
  timer_found t (err e, w) = some (err e, w)
  timer_found t (ok none, w) = some (ok tt, w)
  timer_found t (ok (some r), w) = if_registered t (is_registered r.workflow_name) w

  -- `handleExpiredTimer`
  unfoldable pub handle_expired_timer : TimerSubscription → World → Outcome
  handle_expired_timer t w = timer_found t (get_instance t.instance_id w)

  abbrev pub timers_found : Result (List TimerSubscription) × World → Outcome
  timers_found (err e, w) = some (err e, w)
  timers_found (ok ts, w) = each handle_expired_timer ts w

  -- `checkExpiredTimers`
  unfoldable pub check_expired_timers : World → Outcome
  unfolding each handle_expired_timer
  check_expired_timers w = timers_found (find_expired_timers app.max_timers_per_batch w)
