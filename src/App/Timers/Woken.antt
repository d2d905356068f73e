-- ===== src/App/Timers/Woken.antt =====
-- A sleep (events.go) whose timer has expired (`handleExpiredTimer` of app.go).
use romancy.Base.{
  String, ℕ, ◌≡◌, refl, sym, ap, ◌∙◌, subst, false, true, none, some, [], any, find, same, ltb,
  count, ◌&&◌, ite, arith,
}
use romancy.Json.{null, encodable}
use romancy.Errors.{ok}
use romancy.Storage.Models.{WorkflowInstance, HistoryEvent, TimerSubscription, activity_completed}
use romancy.Storage.World.{
  World, Outside, seconds, pure, query, exec, statement, exec_, now, on_error, in_context, ◌>>=◌,
  ◌>>◌,
}
use romancy.Storage.History.{same_activity, append_history, add_new_event}
use romancy.Storage.Timers.{remove_timer_subscription}
use romancy.Storage.History.Numbered.{DistinctEvents}
use romancy.Activity.{
  ExecutionContext, Reply, result, decoded, get_cached_result, record_activity_result,
  activity_event, hit, generate_activity_id,
}
use romancy.Operations.Once.{sleep, slept}
use romancy.Replay.{Workflow}
use romancy.Replay.Answered.{loaded, added-reply}
use romancy.Storage.Locks.{is_free, try_acquire_lock}
use romancy.Storage.Instances.{by_id, get_instance}
use romancy.App.{App, resume_instance}
use romancy.App.Timers.{
  handle_expired_timer, timer_found, if_registered, timer_locked, record_timer, timer_json,
}

abbrev pub timer_event : TimerSubscription → HistoryEvent
timer_event t = activity_event t.instance_id t.timer_id activity_completed (timer_json t)

record_timer-history :
    (worker : String) (t : TimerSubscription) (w : World)
    → w.faults ≡ []
    → (record_timer worker t w).1.db.history
      ≡ (add_new_event (seconds w) (timer_event t) w.db).history
unfolding record_timer on_error in_context ◌>>=◌ ◌>>◌ remove_timer_subscription exec_ statement
    record_activity_result append_history now
record_timer-history worker t w f =
    subst
      (λ fs.
        (record_timer worker t (record w { faults = fs })).1.db.history
        ≡ (add_new_event (seconds w) (timer_event t) w.db).history)
      (sym f) (ground arith)

-- The world in which `handleExpiredTimer` asks the engine to resume the workflow.
abbrev pub woken : App → TimerSubscription → World → World
woken app t w =
    (record_timer app.worker_id t
      (try_acquire_lock t.instance_id app.worker_id app.stale_lock_timeout w).1).1

-- The row of the instance, and that its lock is free for the worker.
abbrev pub Lockable : App → TimerSubscription → World → Type 0
Lockable app t w =
    ltb 0 (count (λ r. by_id t.instance_id r && is_free (seconds w) app.worker_id r) w.db.instances)
    ≡ true

handle_expired-resumes :
    (o : Outside) (app : App) (fuel : ℕ) (t : TimerSubscription) (r : WorkflowInstance)
    (wf : Workflow) (w : World)
    → w.faults ≡ []
    → find (by_id t.instance_id) w.db.instances ≡ some r
    → app.workflow_runners r.workflow_name ≡ some wf
    → Lockable app t w
    → handle_expired_timer o app fuel t w ≡ resume_instance o app fuel t.instance_id (woken app t w)
unfolding handle_expired_timer record_timer on_error in_context ◌>>=◌ ◌>>◌ remove_timer_subscription
    exec_ statement record_activity_result append_history now get_instance query try_acquire_lock
    exec pure
handle_expired-resumes o app fuel t r wf w f found registered free =
    subst
      (λ fs.
        handle_expired_timer o app fuel t (record w { faults = fs })
        ≡ resume_instance o app fuel t.instance_id (woken app t (record w { faults = fs })))
      (sym f)
      (ap (λ x. timer_found o app fuel t (ok x, record w { faults = [] })) found
        ∙ ap (λ b. if_registered o app fuel t b (record w { faults = [] }))
            (ap (λ x. elim x [ none ↦ false | some y ↦ true ]) registered)
        ∙ ap
            (λ b. timer_locked o app fuel t (
              ok b,
              (try_acquire_lock t.instance_id app.worker_id app.stale_lock_timeout
                  (record w { faults = [] })).1,
            ))
            free)

acquired-history :
    (id worker : String) (timeout : ℕ) (w : World)
    → w.faults ≡ []
    → ((try_acquire_lock id worker timeout w).1.db.history ≡ w.db.history)
      × ((try_acquire_lock id worker timeout w).1.faults ≡ [])
unfolding try_acquire_lock exec statement ◌>>=◌ now pure
acquired-history id worker timeout w f =
    subst
      (λ fs.
        ((try_acquire_lock id worker timeout (record w { faults = fs })).1.db.history
          ≡ w.db.history)
        × ((try_acquire_lock id worker timeout (record w { faults = fs })).1.faults ≡ []))
      (sym f) (refl, refl)

woken-reply :
    (app : App) (t : TimerSubscription) (w : World) (counts : String → ℕ)
    → w.faults ≡ []
    → DistinctEvents w.db.history
    → any (same_activity t.instance_id t.timer_id) w.db.history ≡ false
    → get_cached_result t.timer_id (loaded t.instance_id (woken app t w).db.history counts)
      ≡ some (result (decoded (timer_json t)))
unfolding same
woken-reply app t w counts f distinct fresh =
    let v : World = (try_acquire_lock t.instance_id app.worker_id app.stale_lock_timeout w).1 in
    let acquired = acquired-history t.instance_id app.worker_id app.stale_lock_timeout w f in
    rw (record_timer-history app.worker_id t v acquired.1) (
      added-reply (seconds v) (timer_event t) v.db counts (result (decoded (timer_json t)))
        (rw (acquired.0) distinct) (rw (acquired.0) fresh) refl)

-- The id that `Sleep` looks up.
abbrev pub sleep_id : String → ExecutionContext → String
sleep_id given ec = (ite (same given "") (generate_activity_id "sleep" ec) (given, ec)).0

sleep-cached :
    (given : String) (duration : ℕ) (ec : ExecutionContext) (w : World) (c : Reply)
    → get_cached_result (sleep_id given ec) ec ≡ some c
    → (ec' : ExecutionContext) × (sleep given duration ec w ≡ (ok (encodable null), ec', w))
unfolding sleep get_cached_result generate_activity_id
sleep-cached given duration ec w c e = go (same given "") e
  where
    go :
        (d : Dec (given ≡ ""))
        → get_cached_result (ite d (generate_activity_id "sleep" ec) (given, ec)).0 ec ≡ some c
        → let p : String × ExecutionContext = ite d (generate_activity_id "sleep" ec) (given, ec) in
          (ec' : ExecutionContext) × (slept p.0 duration p.1 w (get_cached_result p.0 p.1)
            ≡ (ok (encodable null), ec', w))
    go (yes p) e = (
      hit (generate_activity_id "sleep" ec).1,
      ap (slept (generate_activity_id "sleep" ec).0 duration (generate_activity_id "sleep" ec).1 w)
          e,
    )
    go (no n) e = (hit ec, ap (slept given duration ec w) e)

-- A timer that has expired ends the sleep that waits for it. Let the driver not fail, the instance
-- have a row whose lock is free and a workflow that is registered, and the history have one event
-- for an activity at most and none of the timer's id. Then `handleExpiredTimer` resumes the
-- workflow in a world where the timer's end is in the history: with the caches that the engine
-- loads from that history, after any operations that were counted, a `Sleep` of the timer's id
-- returns without an error at once, and changes neither the tables nor the clock.
pub handle_expired_timer-sleep :
    (o : Outside) (app : App) (fuel : ℕ) (t : TimerSubscription) (r : WorkflowInstance)
    (wf : Workflow) (w : World)
    → w.faults ≡ []
    → find (by_id t.instance_id) w.db.instances ≡ some r
    → app.workflow_runners r.workflow_name ≡ some wf
    → Lockable app t w
    → DistinctEvents w.db.history
    → any (same_activity t.instance_id t.timer_id) w.db.history ≡ false
    → (handle_expired_timer o app fuel t w
        ≡ resume_instance o app fuel t.instance_id (woken app t w))
      × ((counts : String → ℕ) (given : String) (duration : ℕ) (u : World)
          → let ec : ExecutionContext = loaded t.instance_id (woken app t w).db.history counts in
            sleep_id given ec ≡ t.timer_id
            → (ec' : ExecutionContext) × (sleep given duration ec u
                ≡ (ok (encodable null), ec', u)))
handle_expired_timer-sleep o app fuel t r wf w f found registered free distinct fresh = (
  handle_expired-resumes o app fuel t r wf w f found registered free,
  λ counts given duration u named.
      sleep-cached given duration (loaded t.instance_id (woken app t w).db.history counts) u
        (result (decoded (timer_json t)))
        (subst
          (λ i.
            get_cached_result i (loaded t.instance_id (woken app t w).db.history counts)
            ≡ some (result (decoded (timer_json t))))
          (sym named) (woken-reply app t w counts f distinct fresh)),
)
