-- ===== src/App/Messages/TimedOut.antt =====
-- A receive that has timed out (`handleChannelTimeout` of app.go), and `Receive` (channels.go) after
-- it.
use romancy.Base.{
  String, ◌<>◌, ℕ, ◌≡◌, refl, sym, ap, ◌∙◌, subst, suc, false, true, Option, some, [], any, ltb,
  count, ◌&&◌, has_prefix, if◌then◌else◌, contains-append, arith,
}
use romancy.Errors.{Result, ok, err, message, message_timeout, error_text}
use romancy.Storage.Models.{ChannelSubscription}
use romancy.Storage.World.{
  World, seconds, pure, query, exec, exec_, statement, now, on_error, in_context, finally, ◌>>=◌,
  ◌>>◌,
}
use romancy.Storage.Instances.{by_id, get_instance, update_instance_status}
use romancy.Storage.Locks.{is_free, try_acquire_lock, release_lock}
use romancy.Storage.History.{same_activity, append_history, add_new_event}
use romancy.Storage.Channels.{clear_channel_waiting_state}
use romancy.Storage.History.Numbered.{DistinctEvents}
use romancy.Activity.{ExecutionContext, failure, generate_activity_id, hit}
use romancy.Operations.Message.{Decoder}
use romancy.Operations.Receive.{cached_failure, timeout_text, receive}
use romancy.Replay.Answered.{loaded, added-reply, receive-loaded}
use romancy.App.{App}
use romancy.App.Messages.{timeout_activity, timeout_event, record_timeout, handle_channel_timeout}

record_timeout-history :
    (worker : String) (s : ChannelSubscription) (w : World)
    → w.faults ≡ []
    → ((record_timeout worker s w).0 ≡ ok tt)
      × ((record_timeout worker s w).1.db.history
          ≡ (add_new_event (seconds w) (timeout_event s) w.db).history)
unfolding record_timeout on_error in_context finally ◌>>=◌ ◌>>◌ get_instance query
    update_instance_status release_lock clear_channel_waiting_state exec_ statement append_history
    now
record_timeout-history worker s w f =
    subst
      (λ fs.
        ((record_timeout worker s (record w { faults = fs })).0 ≡ ok tt)
        × ((record_timeout worker s (record w { faults = fs })).1.db.history
            ≡ (add_new_event (seconds w) (timeout_event s) w.db).history))
      (sym f) (refl, ground arith)

-- The lock of the instance is free for the worker.
abbrev pub Lockable : App → ChannelSubscription → World → Type 0
Lockable app s w =
    ltb 0 (count (λ r. by_id s.instance_id r && is_free (seconds w) app.worker_id r) w.db.instances)
    ≡ true

cached_failure-timeout :
    (id channel stored : String)
    → cached_failure id channel (message (error_text (message_timeout id stored)))
      ≡ message_timeout id channel
unfolding error_text has_prefix
cached_failure-timeout id channel stored =
    rw
      (contains-append timeout_text "timeout waiting for channel message on \""
        (stored <> ("\" (instance: " <> (id <> ")"))) refl)
      refl

handle_channel_timeout-history :
    (app : App) (s : ChannelSubscription) (w : World)
    → w.faults ≡ []
    → Lockable app s w
    → ((handle_channel_timeout app s w).0 ≡ ok tt)
      × ((handle_channel_timeout app s w).1.db.history
          ≡ (add_new_event (seconds w) (timeout_event s) w.db).history)
unfolding handle_channel_timeout try_acquire_lock exec statement ◌>>=◌ now pure
handle_channel_timeout-history app s w f free =
    subst
      (λ fs.
        (((handle_channel_timeout app s (record w { faults = fs })).0 ≡ ok tt)
          × ((handle_channel_timeout app s (record w { faults = fs })).1.db.history
              ≡ (add_new_event (seconds w) (timeout_event s) w.db).history)))
      (sym f)
      (subst
        (λ b.
          let out : Result (Unit {0}) × World =
            (if b then record_timeout app.worker_id s else pure tt)
              (try_acquire_lock s.instance_id app.worker_id app.stale_lock_timeout
                (record w { faults = [] })).1 in
          (out.0 ≡ ok tt)
          × (out.1.db.history ≡ (add_new_event (seconds w) (timeout_event s) w.db).history))
        (sym free)
        (let recorded =
            record_timeout-history app.worker_id s
              (try_acquire_lock s.instance_id app.worker_id app.stale_lock_timeout
                (record w { faults = [] })).1
              refl in
          (recorded.0, recorded.1 ∙ ground arith)))

-- A receive that has timed out fails with an error of the type that a workflow can tell apart. Let
-- the driver not fail, the lock of the instance be free for the worker, and the history have one
-- event for an activity at most and none of the activity that waits. Then `handleChannelTimeout`
-- succeeds, and with the caches that the engine loads from the history that it leaves, after any
-- operations that were counted, a `Receive` that comes to that activity fails with a
-- `ChannelMessageTimeoutError` of the instance and its channel, and changes nothing.
pub handle_channel_timeout-receive :
    (app : App) (s : ChannelSubscription) (w : World)
    → w.faults ≡ []
    → Lockable app s w
    → DistinctEvents w.db.history
    → any (same_activity s.instance_id (timeout_activity s)) w.db.history ≡ false
    → ((handle_channel_timeout app s w).0 ≡ ok tt)
      × ((fuel : ℕ) (t : Decoder) (channel : String) (timeout : Option ℕ) (counts : String → ℕ)
            (u : World)
          → let ec : ExecutionContext =
              loaded s.instance_id (handle_channel_timeout app s w).1.db.history counts in
            (generate_activity_id ("receive_" <> channel) ec).0 ≡ timeout_activity s
            → receive (suc fuel) t channel timeout ec u
              ≡ some (
                err (message_timeout s.instance_id channel),
                hit (generate_activity_id ("receive_" <> channel) ec).1,
                u,
              ))
handle_channel_timeout-receive app s w f free distinct fresh = (
  (handle_channel_timeout-history app s w f free).0,
  λ fuel t channel timeout counts u named.
      receive-loaded s.instance_id (handle_channel_timeout app s w).1.db.history counts
        (timeout_activity s)
        (failure (message (error_text (message_timeout s.instance_id s.channel)))) fuel t channel
        timeout u
        (rw (handle_channel_timeout-history app s w f free).1
          (added-reply (seconds w) (timeout_event s) w.db counts _ distinct fresh refl))
        named
      ∙ ap
          (λ e. some (
            err e,
            hit
                (generate_activity_id ("receive_" <> channel)
                  (loaded s.instance_id (handle_channel_timeout app s w).1.db.history counts)).1,
            u,
          ))
          (cached_failure-timeout s.instance_id channel s.channel),
)
