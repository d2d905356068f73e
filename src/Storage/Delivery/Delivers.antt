-- ===== src/Storage/Delivery/Delivers.antt =====
-- What DeliverChannelMessageWithLock (internal/storage/sqlite.go) does where the driver does not
-- fail.
use romancy.Base.{
  String, ℕ, ◌≡◌, refl, sym, ap, ◌∙◌, subst, Bool, false, true, some, List, [], any, find, ltb,
  count, update, ◌&&◌, arith, if◌then◌else◌,
}
use romancy.Errors.{Result, ok, err, unique_violation}
use romancy.Storage.Models.{
  WorkflowInstance, ChannelSubscription, ChannelMessage, HistoryEvent, running,
}
use romancy.Storage.World.{
  World, M, raise, seconds, pure, query, exec, exec_, statement, now, on_error, in_context, ◌>>=◌,
  ◌>>◌,
}
use romancy.Storage.World.Runs.{bind-ok, then-ok}
use romancy.Storage.Instances.{by_id, update_instance_status}
use romancy.Storage.Instances.Rows.{changed?, find-update}
use romancy.Storage.Locks.{is_free, locked, try_acquire_lock, release_lock}
use romancy.Storage.History.{same_activity, add_event}
use romancy.Storage.Channels.{
  is_subscription, clear_channel_waiting_state, is_broadcast, set_cursor,
}
use romancy.Storage.Delivery.{
  ChannelDeliveryResult, received_event, delivery_activity, guarded, or_no_rows, insert_event,
  deliver_locked, deliver_channel_message_with_lock,
}

now_is : (w : World) → now w ≡ (ok (seconds w), w)
unfolding now
now_is w = refl

module _ (id channel : String) (m : ChannelMessage) (worker : String) where
  -- The event that the delivery adds.
  abbrev pub delivered_event : ChannelSubscription → HistoryEvent
  delivered_event s = received_event id (delivery_activity channel m s.activity_id) channel m

  -- The method returns a value, and the event is in the history.
  abbrev pub Delivered : {A : Type 0} → World → ChannelSubscription → Result A × World → Type 0
  Delivered w s (ok a, v) = v.db.history ≡ (add_event (seconds w) (delivered_event s) w.db).history
  Delivered w s (err e, v) = ⊥

  row_found :
      (r : WorkflowInstance) (w : World)
      → w.faults ≡ []
      → find (by_id id) w.db.instances ≡ some r
      → guarded id channel m worker "failed to get workflow info"
          (query (λ d. find (by_id id) d.instances) >>= or_no_rows)
          w
        ≡ (ok r, w)
  unfolding on_error in_context ◌>>=◌ query statement pure raise
  row_found r w f row =
      subst
        (λ fs.
          guarded id channel m worker "failed to get workflow info"
            (query (λ d. find (by_id id) d.instances) >>= or_no_rows) (record w { faults = fs })
          ≡ (ok r, record w { faults = fs }))
        (sym f)
        (ap
          (λ x.
            guarded id channel m worker "failed to get workflow info" (or_no_rows x)
              (record w { faults = [] }))
          row)

  subscription_found :
      (s : ChannelSubscription) (w : World)
      → w.faults ≡ []
      → find (is_subscription id channel) w.db.subscriptions ≡ some s
      → guarded id channel m worker "failed to get subscription info"
          (query (λ d. find (is_subscription id channel) d.subscriptions) >>= or_no_rows)
          w
        ≡ (ok s, w)
  unfolding on_error in_context ◌>>=◌ query statement pure raise
  subscription_found s w f sub =
      subst
        (λ fs.
          guarded id channel m worker "failed to get subscription info"
            (query (λ d. find (is_subscription id channel) d.subscriptions) >>= or_no_rows)
            (record w { faults = fs })
          ≡ (ok s, record w { faults = fs }))
        (sym f)
        (ap
          (λ x.
            guarded id channel m worker "failed to get subscription info" (or_no_rows x)
              (record w { faults = [] }))
          sub)

  event_inserted :
      (e : HistoryEvent) (t : ℕ) (w : World)
      → w.faults ≡ []
      → any (same_activity e.instance_id e.activity_id) w.db.history ≡ false
      → guarded id channel m worker "failed to record history" (statement (insert_event t e)) w
        ≡ (ok tt, record w { db = add_event t e w.db })
  unfolding on_error in_context statement
  event_inserted e t w f fresh =
      subst
        (λ fs.
          guarded id channel m worker "failed to record history" (statement (insert_event t e))
            (record w { faults = fs })
          ≡ (ok tt, record w { db = add_event t e w.db; faults = fs }))
        (sym f)
        (ap
          (λ b.
            guarded id channel m worker "failed to record history"
              (statement (λ d. if b then (err unique_violation, d) else (ok tt, add_event t e d)))
              (record w { faults = [] }))
          fresh)

  -- The method succeeds and leaves the history alone.
  abbrev HistoryKept : List HistoryEvent → {A : Type 0} → Result A × World → Type 0
  HistoryKept hs (ok a, v) = v.db.history ≡ hs
  HistoryKept hs (err e, v) = ⊥

  finished :
      (b : Bool) (r : ChannelDeliveryResult) (w : World)
      → w.faults ≡ []
      → HistoryKept w.db.history (
          ((if b
                then guarded id channel m worker "failed to update delivery cursor"
                    (exec_ (set_cursor id channel m.id))
                else pure tt)
              >> (guarded id channel m worker "failed to clear waiting state"
                    (clear_channel_waiting_state id channel)
                  >> (guarded id channel m worker "failed to update status"
                        (update_instance_status id running)
                      >> (in_context "failed to release lock" (release_lock id worker) >> pure r))))
            w)
  unfolding on_error in_context ◌>>=◌ ◌>>◌ exec_ statement now pure update_instance_status
      release_lock clear_channel_waiting_state
  finished true r w f =
      subst
        (λ fs. HistoryKept w.db.history (
          (guarded id channel m worker "failed to update delivery cursor"
                (exec_ (set_cursor id channel m.id))
              >> (guarded id channel m worker "failed to clear waiting state"
                    (clear_channel_waiting_state id channel)
                  >> (guarded id channel m worker "failed to update status"
                        (update_instance_status id running)
                      >> (in_context "failed to release lock" (release_lock id worker) >> pure r))))
            (record w { faults = fs })))
        (sym f) (ground arith)
  finished false r w f =
      subst
        (λ fs. HistoryKept w.db.history (
          ((guarded id channel m worker "failed to clear waiting state"
                (clear_channel_waiting_state id channel)
              >> (guarded id channel m worker "failed to update status"
                    (update_instance_status id running)
                  >> (in_context "failed to release lock" (release_lock id worker) >> pure r))))
            (record w { faults = fs })))
        (sym f) refl

  kept-Delivered :
      {A : Type 0} (s : ChannelSubscription) (w : World) (out : Result A × World)
      → HistoryKept (add_event (seconds w) (delivered_event s) w.db).history out
      → Delivered w s out
  kept-Delivered s w (ok a, v) k = k
  kept-Delivered s w (err e, v) k = absurd k

  deliver_locked-Delivered :
      (r : WorkflowInstance) (s : ChannelSubscription) (w : World)
      → w.faults ≡ []
      → find (by_id id) w.db.instances ≡ some r
      → find (is_subscription id channel) w.db.subscriptions ≡ some s
      → any (same_activity id (delivery_activity channel m s.activity_id)) w.db.history ≡ false
      → Delivered w s (deliver_locked id channel m worker w)
  unfolding deliver_locked
  deliver_locked-Delivered r s w f row sub fresh =
      bind-ok (Delivered w s) _ _ w w r (row_found r w f row) (
        bind-ok (Delivered w s) _ _ w w s (subscription_found s w f sub) (
          bind-ok (Delivered w s) now _ w w (seconds w) (now_is w) (
            then-ok (Delivered w s) _ _ w _
              (event_inserted (delivered_event s) (seconds w) w f fresh)
              (kept-Delivered s w _ (
                finished (is_broadcast s.mode) _
                  (record w { db = add_event (seconds w) (delivered_event s) w.db }) f)))))

  -- The world after the lock was taken.
  abbrev with_lock : ℕ → World → World
  with_lock timeout w = record w {
    db = record (w.db) {
      instances =
          update (λ r. by_id id r && is_free (seconds w) worker r)
            (locked (seconds w) worker timeout) (w.db).instances;
    };
    faults = [];
  }

  -- The lock of the instance is free for the worker.
  abbrev pub Lockable : World → Type 0
  Lockable w = ltb 0 (count (λ r. by_id id r && is_free (seconds w) worker r) w.db.instances) ≡ true

  lock_taken :
      (timeout : ℕ) (w : World)
      → w.faults ≡ []
      → Lockable w
      → try_acquire_lock id worker timeout w ≡ (ok true, with_lock timeout w)
  unfolding try_acquire_lock exec statement ◌>>=◌ now pure
  lock_taken timeout w f free =
      subst
        (λ fs.
          try_acquire_lock id worker timeout (record w { faults = fs })
          ≡ (ok true, with_lock timeout w))
        (sym f) (ap (λ b. (ok b, with_lock timeout w)) free)

  Delivered-some :
      (w : World) (s : ChannelSubscription) (out : Result ChannelDeliveryResult × World)
      → Delivered w s out
      → Delivered w s (((λ (u : World). out) >>= λ r. pure (some r)) w)
  unfolding ◌>>=◌ pure
  Delivered-some w s (ok a, v) p = p
  Delivered-some w s (err e, v) p = absurd p

  then-Delivered :
      (w u : World) (s : ChannelSubscription) (step : M ChannelDeliveryResult)
      → Delivered w s (step u)
      → Delivered w s ((step >>= λ r. pure (some r)) u)
  unfolding ◌>>=◌
  then-Delivered w u s step p = Delivered-some w s (step u) p

  pub deliver-Delivered :
      (timeout : ℕ) (r : WorkflowInstance) (s : ChannelSubscription) (w : World)
      → w.faults ≡ []
      → Lockable w
      → find (by_id id) w.db.instances ≡ some r
      → find (is_subscription id channel) w.db.subscriptions ≡ some s
      → any (same_activity id (delivery_activity channel m s.activity_id)) w.db.history ≡ false
      → Delivered w s (deliver_channel_message_with_lock id channel m worker timeout w)
  unfolding deliver_channel_message_with_lock
  deliver-Delivered timeout r s w f free row sub fresh =
      bind-ok (Delivered w s) _ _ w (with_lock timeout w) true (lock_taken timeout w f free) (
        then-Delivered w (with_lock timeout w) s (deliver_locked id channel m worker) (
          deliver_locked-Delivered _ s (with_lock timeout w) refl
            (find-update id (λ r. by_id id r && is_free (seconds w) worker r)
                (locked (seconds w) worker timeout) (λ r. refl) w.db.instances
              ∙ ap
                  (changed? (λ r. by_id id r && is_free (seconds w) worker r)
                    (locked (seconds w) worker timeout))
                  row)
            sub fresh))

  pub Delivered-history :
      {A : Type 0} (w : World) (s : ChannelSubscription) (out : Result A × World)
      → Delivered w s out
      → out.1.db.history ≡ (add_event (seconds w) (delivered_event s) w.db).history
  Delivered-history w s (ok a, v) d = d
  Delivered-history w s (err e, v) d = absurd d
