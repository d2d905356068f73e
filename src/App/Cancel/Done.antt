-- ===== src/App/Cancel/Done.antt =====
-- What `cancelWorkflow` (app.go) has done where it succeeds.
use romancy.Base.{
  String, ℕ, ◌≡◌, refl, sym, subst, ◌∙◌, Bool, true, false, Option, none, some, List, [], ◌∷◌, ◌==◌,
  ◌&&◌, any, find, count, update, arith, if◌then◌else◌,
}
use romancy.Errors.{Error, Result, ok, err}
use romancy.Storage.Models.{
  WorkflowInstance, WorkflowStatus, running, completed, failed, cancelled, waiting_for_event,
  waiting_for_timer, waiting_for_message, recurred, compensating,
}
use romancy.Storage.World.{
  World, M, seconds, exec, exec_, query, now, pure, raise, in_context, finally, ignore, ◌>>=◌, ◌>>◌,
}
use romancy.Storage.World.{Outside}
use romancy.Storage.World.Keeps.{statement_cases}
use romancy.Storage.World.Runs.{bind-each}
use romancy.Storage.Instances.{by_id, can_cancel, get_instance, cancel_instance}
use romancy.Storage.Instances.Cancelled.{now_cancelled}
use romancy.Storage.Locks.{is_held_by, unlocked, release_lock}
use romancy.App.{App}
use romancy.App.Cancel.{
  cancelled_or_error, cancel_locked, cancel_with_lock, cancel_in_status, cancel_found,
  cancel_workflow, execute_app_compensations,
}

abbrev is_cancelled : WorkflowStatus → Bool
is_cancelled cancelled = true
is_cancelled _ = false

-- Some row of the instance is cancelled.
abbrev pub has_cancelled : String → List WorkflowInstance → Bool
has_cancelled id rows = any (λ r. by_id id r && is_cancelled r.status) rows

-- Where the answer is a success, the instance is cancelled.
abbrev pub CancelledIfOk : String → Result (Unit {0}) × World → Type 0
CancelledIfOk id (ok x, v) = has_cancelled id v.db.instances ≡ true
CancelledIfOk id (err e, v) = Unit

cancelled_rows :
    (id : String) (t : ℕ) (rows : List WorkflowInstance)
    → (count (can_cancel id) rows == 0) ≡ false
    → has_cancelled id (update (can_cancel id) (now_cancelled t) rows) ≡ true
cancelled_rows id t [] h = cc
cancelled_rows id t (r ∷ rows) h = ground (arith, cancelled_rows id t rows)

cancel_instance-cancels : (id : String) (w : World) → CancelledIfOk id (cancel_instance id w)
unfolding cancel_instance ◌>>=◌ exec now pure raise
cancel_instance-cancels id w =
    statement_cases
      (λ out.
        CancelledIfOk id (
          ((λ (u : World). out) >>= λ n. if n == 0 then raise Error.not_cancellable else pure tt)
            w))
      _ w (λ rest. tt)
      (λ rest.
        go rest (count (can_cancel id) w.db.instances == 0)
          (cancelled_rows id (seconds w) w.db.instances))
  where
    go :
        (rest : List Bool) (b : Bool)
        → (b ≡ false
            → has_cancelled id (update (can_cancel id) (now_cancelled (seconds w)) w.db.instances)
              ≡ true)
        → CancelledIfOk id (
            (if b then raise Error.not_cancellable else pure tt) (record w {
              db = record (w.db) {
                instances = update (can_cancel id) (now_cancelled (seconds w)) (w.db).instances;
              };
              faults = rest;
            }))
    go rest true h = tt
    go rest false h = h refl

released_rows :
    (id : String) (p : WorkflowInstance → Bool) (t : ℕ) (rows : List WorkflowInstance)
    → has_cancelled id (update p (unlocked t) rows) ≡ has_cancelled id rows
released_rows id p t [] = refl
released_rows id p t (r ∷ rows) = ground (arith, released_rows id p t rows)

-- The release of the lock leaves the status alone.
release_lock-cancelled :
    (id worker : String) (w : World)
    → has_cancelled id (release_lock id worker w).1.db.instances ≡ has_cancelled id w.db.instances
unfolding release_lock ◌>>=◌ now exec_
release_lock-cancelled id worker w =
    statement_cases (λ out. has_cancelled id out.1.db.instances ≡ has_cancelled id w.db.instances) _
      w (λ rest. refl)
      (λ rest. released_rows id (λ r. by_id id r && is_held_by worker r.locked_by) (seconds w) _)

finally-cancelled :
    (id worker : String) (m : M (Unit {0})) (w : World)
    → CancelledIfOk id (m w)
    → CancelledIfOk id (finally m (release_lock id worker) w)
unfolding finally
finally-cancelled id worker m w h = go (m w).0 (m w).1 h
  where
    go :
        (r : Result (Unit {0})) (v : World)
        → CancelledIfOk id (r, v)
        → CancelledIfOk id (r, (release_lock id worker v).1)
    go (ok x) v h = release_lock-cancelled id worker v ∙ h
    go (err e) v h = tt

-- The instance that is found, as the table has it.
abbrev FoundIn : String → Result (Option WorkflowInstance) × World → Type 0
FoundIn id (ok a, v) = a ≡ find (by_id id) v.db.instances
FoundIn id (err e, v) = Unit

get_instance-FoundIn :
    (id context : String) (w : World) → FoundIn id (in_context context (get_instance id) w)
unfolding in_context get_instance query
get_instance-FoundIn id context w =
    statement_cases (λ out. FoundIn id (in_context context (λ (u : World). out) w)) _ w (λ rest. tt)
      (λ rest. refl)

found-cancelled :
    (id : String) (rows : List WorkflowInstance) (r : WorkflowInstance)
    → find (by_id id) rows ≡ some r
    → is_cancelled r.status ≡ true
    → has_cancelled id rows ≡ true
found-cancelled id [] r f c = cc
found-cancelled id (x ∷ rows) r f c = ground (arith, found-cancelled id rows r)

module _ (o : Outside) (app : App) (id : String) where
  cancel_locked-cancelled : (w : World) → CancelledIfOk id (cancel_locked o app id w)
  unfolding cancel_locked ignore ◌>>◌ ◌>>=◌
  cancel_locked-cancelled w =
      go (cancel_instance id (execute_app_compensations o app.has_executor id w).1)
        (cancel_instance-cancels id (execute_app_compensations o app.has_executor id w).1)
    where
      go :
          (out : Result (Unit {0}) × World)
          → CancelledIfOk id out
          → CancelledIfOk id (cancelled_or_error out)
      go (ok x, v) h = h
      go (err e, v) h = tt

  with_lock-cancelled : (w : World) → CancelledIfOk id (cancel_with_lock o app id w)
  unfolding raise
  with_lock-cancelled w =
      bind-each (CancelledIfOk id) _ _ w (λ e v. tt) (λ acquired v e. go acquired v)
    where
      go :
          (b : Bool) (v : World)
          → CancelledIfOk id (
              (if b
                  then finally (cancel_locked o app id) (release_lock id app.worker_id)
                  else raise (Error.message "workflow is locked by another worker"))
                v)
      go true v =
          finally-cancelled id app.worker_id (cancel_locked o app id) v (cancel_locked-cancelled v)
      go false v = tt

  in_status-cancelled :
      (s : WorkflowStatus) (w : World)
      → (is_cancelled s ≡ true → has_cancelled id w.db.instances ≡ true)
      → CancelledIfOk id (cancel_in_status o app id s w)
  unfolding raise pure
  in_status-cancelled completed w h = tt
  in_status-cancelled failed w h = tt
  in_status-cancelled cancelled w h = h refl
  in_status-cancelled running w h = with_lock-cancelled w
  in_status-cancelled waiting_for_event w h = with_lock-cancelled w
  in_status-cancelled waiting_for_timer w h = with_lock-cancelled w
  in_status-cancelled waiting_for_message w h = with_lock-cancelled w
  in_status-cancelled recurred w h = with_lock-cancelled w
  in_status-cancelled compensating w h = with_lock-cancelled w

  -- Where `cancelWorkflow` succeeds, the instance has a row that is cancelled, whatever state it was
  -- in before, whatever its compensations answer, and whichever statements the driver fails.
  pub cancel_workflow-CancelledIfOk : (w : World) → CancelledIfOk id (cancel_workflow o app id w)
  unfolding cancel_workflow raise
  cancel_workflow-CancelledIfOk w =
      bind-each (CancelledIfOk id) _ _ w (λ e v. tt)
        (λ found v e. go found v (subst (FoundIn id) e (get_instance-FoundIn id _ w)))
    where
      go :
          (found : Option WorkflowInstance) (v : World)
          → found ≡ find (by_id id) v.db.instances
          → CancelledIfOk id (cancel_found o app id found v)
      go none v f = tt
      go (some r) v f = in_status-cancelled r.status v (found-cancelled id v.db.instances r (sym f))
