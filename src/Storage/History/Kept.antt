-- ===== src/Storage/History/Kept.antt =====
-- The methods of internal/storage/sqlite.go that write the table `workflow_history`, and its
-- constraints.
use romancy.Base.{
  String, ℕ, ◌/◌, refl, Bool, true, false, Option, none, some, List, [], ◌∷◌, ◌++◌, any, select,
  update, if◌then◌else◌,
}
use romancy.Errors.{Error, Result, ok, err}
use romancy.Storage.Models.{Db, HistoryEvent, ChannelMessage}
use romancy.Storage.World.{World, M, exec_, pure}
use romancy.Storage.World.Keeps.{
  Keeps, Keeps-pure, Keeps-raise, Keeps-statement, Keeps-query, Keeps-exec, Keeps-exec_, Keeps-if,
  Keeps-now, Keeps-bind, Keeps-then, Keeps-in_context, Keeps-on_error,
}
use romancy.Storage.History.{of_instance, append_history, archive_history}
use romancy.Storage.Instances.{update_instance_status}
use romancy.Storage.Locks.{try_acquire_lock, release_lock}
use romancy.Storage.Channels.{
  new_cursor, set_cursor, clear_channel_waiting_state, is_broadcast, is_cursor,
}
use romancy.Storage.Delivery.{
  deliver_channel_message_with_lock, deliver_locked, received_event, delivery_activity, guarded,
  or_no_rows,
}
use romancy.Storage.History.Numbered.{
  Numbered, add_if_new, insert_if_new, reject-DistinctEvents, reject-Rising, reject-Below,
}

module _ (t : ℕ) where
  append_history-Numbered : (e : HistoryEvent) → Keeps t Numbered (append_history e)
  unfolding append_history
  append_history-Numbered e =
      Keeps-now _ (Keeps-exec_ _ (λ d n. add_if_new (t / 1000000000) e d _ refl n))

  archive_history-Numbered : (id : String) → Keeps t Numbered (archive_history id)
  unfolding archive_history
  archive_history-Numbered id =
      Keeps-then _ _ (Keeps-statement _ (λ d n. go d n d.archive_has_original)) (
        Keeps-exec_ _ (λ d n. (
          reject-DistinctEvents (of_instance id) d.history n.0,
          reject-Rising (of_instance id) 0 d.history n.1,
          reject-Below (of_instance id) d.next_history_id d.history n.2,
          n.3,
        )))
    where
      go :
          (d : Db)
          → Numbered d
          → (b : Bool)
          → let r : Result (Unit {0}) × Db =
              if b
              then (ok tt, record d { archive = d.archive ++ select (of_instance id) d.history })
              else (err Error.sql_error, d) in
            Numbered r.1
      go d n true = n
      go d n false = n

  release_lock-Numbered : (id worker : String) → Keeps t Numbered (release_lock id worker)
  unfolding release_lock
  release_lock-Numbered id worker = Keeps-now _ (Keeps-exec_ _ (λ d n. n))

  set_cursor-Numbered :
      (id channel : String) (k : ℕ) (d : Db) → Numbered d → Numbered (set_cursor id channel k d)
  set_cursor-Numbered id channel k d n = go (any (is_cursor id channel) d.cursors)
    where
      go :
          (b : Bool)
          → Numbered (
              if b
              then record d {
                cursors =
                    update
                      (is_cursor id channel)
                      (λ c. record c { last_delivered_id = k })
                      d.cursors;
              }
              else record d { cursors = d.cursors ++ new_cursor id channel k ∷ [] })
      go true = n
      go false = n

  or_no_rows-Numbered : {A : Type 0} (o : Option A) → Keeps t Numbered (or_no_rows o)
  or_no_rows-Numbered none = Keeps-raise _
  or_no_rows-Numbered (some a) = Keeps-pure a

  guarded-Numbered :
      {A : Type 0} (id channel : String) (m : ChannelMessage) (worker context : String) (step : M A)
      → Keeps t Numbered step
      → Keeps t Numbered (guarded id channel m worker context step)
  guarded-Numbered id channel m worker context step k =
      Keeps-on_error _ _ (Keeps-in_context context step k) (release_lock-Numbered id worker)

  deliver_locked-Numbered :
      (id channel : String) (m : ChannelMessage) (worker : String)
      → Keeps t Numbered (deliver_locked id channel m worker)
  unfolding deliver_locked clear_channel_waiting_state update_instance_status
  deliver_locked-Numbered id channel m worker =
      Keeps-bind _ _
        (guarded-Numbered id channel m worker _ _
          (Keeps-bind _ _ (Keeps-query _) (λ o. or_no_rows-Numbered o)))
        λ workflow.
          Keeps-bind _ _
            (guarded-Numbered id channel m worker _ _
              (Keeps-bind _ _ (Keeps-query _) (λ o. or_no_rows-Numbered o)))
            λ sub. Keeps-now _ (
              Keeps-then _ _
                (guarded-Numbered id channel m worker _ _ (
                  Keeps-statement _ (λ d n.
                    insert_if_new (t / 1000000000)
                      (received_event id (delivery_activity channel m sub.activity_id) channel m) d
                      _ refl n)))
                (Keeps-then _ _
                  (Keeps-if (is_broadcast sub.mode)
                    (guarded id channel m worker "failed to update delivery cursor"
                      (exec_ (set_cursor id channel m.id)))
                    (pure tt)
                    (λ e. guarded-Numbered id channel m worker _ _ (
                      Keeps-exec_ (set_cursor id channel m.id)
                        (λ d n. set_cursor-Numbered id channel m.id d n)))
                    (λ e. Keeps-pure tt))
                  (Keeps-then _ _
                    (guarded-Numbered id channel m worker _ _ (Keeps-exec_ _ (λ d n. n)))
                    (Keeps-then _ _
                      (guarded-Numbered id channel m worker _ _
                        (Keeps-now _ (Keeps-exec_ _ (λ d n. n))))
                      (Keeps-then _ _ (Keeps-in_context _ _ (release_lock-Numbered id worker))
                        (Keeps-pure _))))))

  deliver-Numbered :
      (id channel : String) (m : ChannelMessage) (worker : String) (timeout : ℕ)
      → Keeps t Numbered (deliver_channel_message_with_lock id channel m worker timeout)
  unfolding deliver_channel_message_with_lock try_acquire_lock
  deliver-Numbered id channel m worker timeout =
      Keeps-bind _ _ (Keeps-now _ (Keeps-bind _ _ (Keeps-exec _ (λ d n. n)) (λ k. Keeps-pure _)))
        (λ acquired.
          Keeps-if acquired _ _
            (λ e. Keeps-bind _ _ (deliver_locked-Numbered id channel m worker) (λ r. Keeps-pure _))
            (λ e. Keeps-pure _))

-- A call of a method that writes the history, and what it does to the world.
pub data HistoryCall : Type 0 where
  appends : HistoryEvent → HistoryCall
  archives : (id : String) → HistoryCall
  delivers : (id channel : String) → ChannelMessage → (worker : String) (timeout : ℕ) → HistoryCall

unfoldable pub history_call : HistoryCall → World → World
history_call (appends e) w = (append_history e w).1
history_call (archives id) w = (archive_history id w).1
history_call (delivers id channel m worker timeout) w =
    (deliver_channel_message_with_lock id channel m worker timeout w).1

history_call-Numbered :
    (c : HistoryCall) (w : World) → Numbered w.db → Numbered (history_call c w).db
unfolding history_call
history_call-Numbered (appends e) w n = ((append_history-Numbered w.clock e).at w refl n).1
history_call-Numbered (archives id) w n = ((archive_history-Numbered w.clock id).at w refl n).1
history_call-Numbered (delivers id channel m worker timeout) w n =
    ((deliver-Numbered w.clock id channel m worker timeout).at w refl n).1

-- The calls in turn, each at its time.
unfoldable pub run_history_calls : List (ℕ × HistoryCall) → World → World
unfolding history_call
run_history_calls [] w = w
run_history_calls ((t, c) ∷ cs) w = run_history_calls cs (history_call c (record w { clock = t }))

-- However appends, archivals and deliveries of messages follow one another, at any times and with
-- any failures of the driver: if before them no instance has two events of one activity, the
-- numbers rise and the counter is above them all, then so it is after them.
pub run_history_calls-Numbered :
    (cs : List (ℕ × HistoryCall)) (w : World) → Numbered w.db → Numbered (run_history_calls cs w).db
unfolding run_history_calls
run_history_calls-Numbered [] w n = n
run_history_calls-Numbered ((t, c) ∷ cs) w n =
    run_history_calls-Numbered cs (history_call c (record w { clock = t }))
      (history_call-Numbered c (record w { clock = t }) n)
