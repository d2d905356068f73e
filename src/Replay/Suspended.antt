-- ===== src/Replay/Suspended.antt =====
-- A workflow that sleeps: what the engine leaves of its timer (internal/replay/engine.go), and the
-- search for timers that have expired (FindExpiredTimers of internal/storage/sqlite.go).
use romancy.Base.{
  String, ℕ, ◌≤◌, ◌/◌, ◌≡◌, refl, sym, ap, subst, ◌∙◌, Bool, true, false, List, [], ◌∷◌, ◌++◌, any,
  select, update, take, take_all, length, suc, ◌||◌, arith, length-append, if◌then◌else◌,
}
use romancy.Errors.{ok, timer}
use romancy.Storage.Models.{
  Db, WorkflowInstance, WorkflowStatus, TimerSubscription, waiting_for_timer,
}
use romancy.Storage.World.{World, seconds, in_context, query, exec_, now, statement, ◌>>=◌, ◌>>◌}
use romancy.Storage.Instances.{by_id, update_instance_status}
use romancy.Storage.Timers.{
  is_timer, is_due, joins_go_instance, insert_by_expiry, order_by_expiry,
  register_timer_subscription, find_expired_timers,
}
use romancy.Replay.{handle_timer_suspend, handle_suspend_signal}

any-insert :
    (p : TimerSubscription → Bool) (t : TimerSubscription) (rows : List TimerSubscription)
    → any p (insert_by_expiry t rows) ≡ (p t || any p rows)
unfolding insert_by_expiry
any-insert p t [] = refl
any-insert p t (u ∷ rows) = ground (arith, any-insert p t rows)

any-order :
    (p : TimerSubscription → Bool) (rows : List TimerSubscription)
    → any p (order_by_expiry rows) ≡ any p rows
unfolding order_by_expiry
any-order p [] = refl
any-order p (t ∷ rows) =
    any-insert p t (order_by_expiry rows) ∙ ap (λ b. p t || b) (any-order p rows)

length-insert :
    (t : TimerSubscription) (rows : List TimerSubscription)
    → length (insert_by_expiry t rows) ≡ suc (length rows)
unfolding insert_by_expiry
length-insert t [] = refl
length-insert t (u ∷ rows) = ground (arith, length-insert t rows)

length-order : (rows : List TimerSubscription) → length (order_by_expiry rows) ≡ length rows
unfolding order_by_expiry
length-order [] = refl
length-order (t ∷ rows) = length-insert t (order_by_expiry rows) ∙ ap suc (length-order rows)

length-select_timers :
    (p : TimerSubscription → Bool) (rows : List TimerSubscription)
    → length (select p rows) ≤ length rows
length-select_timers p [] = omega arith
length-select_timers p (t ∷ rows) = ground (arith, length-select_timers p rows)

any-select_last :
    (p q : TimerSubscription → Bool) (rows : List TimerSubscription) (t : TimerSubscription)
    → q t ≡ true
    → p t ≡ true
    → any p (select q (rows ++ t ∷ [])) ≡ true
any-select_last p q [] t a b = ground arith
any-select_last p q (u ∷ rows) t a b = ground (arith, any-select_last p q rows t a b)

-- A change of the status leaves the framework alone.
joins-update :
    (id i : String) (s : WorkflowStatus) (t : ℕ) (rows : List WorkflowInstance)
    → joins_go_instance id (update (by_id i) (λ r. record r { status = s; updated_at = t }) rows)
      ≡ joins_go_instance id rows
joins-update id i s t [] = refl
joins-update id i s t (r ∷ rows) = ground (arith, joins-update id i s t rows)

abbrev timer_row : String → String → String → ℕ → Db → TimerSubscription
timer_row id timer_id activity_id expires_at d = record {
  id = d.next_timer_id;
  instance_id = id;
  timer_id = timer_id;
  expires_at = expires_at;
  activity_id = activity_id;
}

abbrev now_waiting : String → World → Db → World
now_waiting id w d = record w {
  db = record d {
    instances =
        update (by_id id) (λ r. record r { status = waiting_for_timer; updated_at = seconds w })
          d.instances;
  };
  faults = [];
}

abbrev with_timer : String → String → String → ℕ → Db → Db
with_timer id timer_id activity_id expires_at d = record d {
  timers = d.timers ++ timer_row id timer_id activity_id expires_at d ∷ [];
  next_timer_id = suc d.next_timer_id;
}

suspended_world :
    (id timer_id activity_id : String) (expires_at : ℕ) (w : World)
    → w.faults ≡ []
    → any (is_timer id timer_id) w.db.timers ≡ false
    → (handle_timer_suspend id timer_id activity_id expires_at w).1
      ≡ now_waiting id w (with_timer id timer_id activity_id expires_at w.db)
unfolding handle_timer_suspend register_timer_subscription update_instance_status in_context ◌>>=◌
    ◌>>◌ exec_ statement now
suspended_world id timer_id activity_id expires_at w f fresh =
    subst
      (λ fs.
        (handle_timer_suspend id timer_id activity_id expires_at (record w { faults = fs })).1
        ≡ now_waiting id w (with_timer id timer_id activity_id expires_at w.db))
      (sym f)
      (ap
        (λ b.
          now_waiting id w (if b then w.db else with_timer id timer_id activity_id expires_at w.db))
        fresh)

-- A sleep ends: let the driver not fail, the instance be of the framework "go", and no timer have
-- its name yet. Once the engine has handled the suspend signal of a sleep, then at any time from
-- its end on `FindExpiredTimers` answers with a timer of that name among its rows, where the limit is
-- larger than the number of the timers before.
pub handle_suspend_signal-find_expired :
    (id worker timer_id activity_id : String) (expires_at n clock : ℕ) (w : World)
    → w.faults ≡ []
    → joins_go_instance id w.db.instances ≡ true
    → any (is_timer id timer_id) w.db.timers ≡ false
    → expires_at ≤ clock / 1000000000
    → length w.db.timers ≤ n
    → let v : World =
        (handle_suspend_signal id worker (timer timer_id activity_id expires_at) w).1 in
      (rows : List TimerSubscription) × (u : World) × (find_expired_timers
          (suc n)
          (record v { clock = clock })
        ≡ (ok rows, u))
      × (any (is_timer id timer_id) rows ≡ true)
unfolding handle_suspend_signal find_expired_timers ◌>>=◌ query statement now
handle_suspend_signal-find_expired id worker timer_id activity_id expires_at n clock w f go_row
      fresh due room =
    subst
      (λ v.
        (rows : List TimerSubscription) × (u : World) × (find_expired_timers (suc n)
            (record v { clock = clock })
          ≡ (ok rows, u))
        × (any (is_timer id timer_id) rows ≡ true))
      (sym (suspended_world id timer_id activity_id expires_at w f fresh))
      (take (suc n) (order_by_expiry ready), _, refl, found)
  where
    d : Db
    d = (now_waiting id w (with_timer id timer_id activity_id expires_at w.db)).db

    ready : List TimerSubscription
    ready = select (is_due (clock / 1000000000) d) d.timers

    joins : joins_go_instance id d.instances ≡ true
    joins = joins-update id id waiting_for_timer (seconds w) w.db.instances ∙ go_row

    found : any (is_timer id timer_id) (take (suc n) (order_by_expiry ready)) ≡ true
    found =
        ap (any (is_timer id timer_id)) (
          take_all (suc n) (order_by_expiry ready) (
            omega (
              arith,
              length-order ready,
              length-select_timers (is_due (clock / 1000000000) d) d.timers,
              length-append w.db.timers (timer_row id timer_id activity_id expires_at w.db ∷ []),
              room,
            )))
        ∙ any-order (is_timer id timer_id) ready
        ∙ any-select_last (is_timer id timer_id) (is_due (clock / 1000000000) d) w.db.timers
            (timer_row id timer_id activity_id expires_at w.db) (ground (arith, joins))
            (ground arith)
