-- ===== src/Storage/Timers.antt =====
-- internal/storage/sqlite.go, the timer subscriptions.
use romancy.Base.{
  String, ℕ, Bool, List, [], ◌∷◌, ◌++◌, leb, ◌≟◌, ◌&&◌, suc, select, reject, any, take,
  if◌then◌else◌,
}
use romancy.Storage.Models.{Db, TimerSubscription, WorkflowInstance}
use romancy.Storage.Instances.{by_id, limit_or}
use romancy.Storage.World.{M, ◌>>=◌, query, exec_, now}

abbrev pub is_timer : String → String → TimerSubscription → Bool
is_timer instance_id timer_id t = (t.instance_id ≟ instance_id) && (t.timer_id ≟ timer_id)

-- `ON CONFLICT (instance_id, timer_id) DO NOTHING`
abbrev pub add_timer : TimerSubscription → Db → Db
add_timer sub d = if any (is_timer sub.instance_id sub.timer_id) d.timers then d else record d {
  timers = d.timers ++ record sub { id = d.next_timer_id } ∷ [];
  next_timer_id = suc d.next_timer_id;
}

unfoldable pub register_timer_subscription : TimerSubscription → M (Unit {0})
register_timer_subscription sub = exec_ (add_timer sub)

unfoldable pub remove_timer_subscription : String → String → M (Unit {0})
remove_timer_subscription instance_id timer_id =
    exec_ λ d. record d { timers = reject (is_timer instance_id timer_id) d.timers }

unfoldable pub insert_by_expiry :
    TimerSubscription → List TimerSubscription → List TimerSubscription
insert_by_expiry t [] = t ∷ []
insert_by_expiry t (u ∷ rows) =
    if leb t.expires_at u.expires_at then t ∷ u ∷ rows else u ∷ insert_by_expiry t rows

unfoldable pub order_by_expiry : List TimerSubscription → List TimerSubscription
unfolding insert_by_expiry
order_by_expiry [] = []
order_by_expiry (t ∷ rows) = insert_by_expiry t (order_by_expiry rows)

-- `JOIN workflow_instances w ON t.instance_id = w.instance_id ... AND w.framework = 'go'`
abbrev pub joins_go_instance : String → List WorkflowInstance → Bool
joins_go_instance instance_id rows = any (λ w. by_id instance_id w && (w.framework ≟ "go")) rows

-- The join looks at the framework of the instance only, not at its status.
abbrev pub is_due : ℕ → Db → TimerSubscription → Bool
is_due t d sub = leb sub.expires_at t && joins_go_instance sub.instance_id d.instances

unfoldable pub find_expired_timers : ℕ → M (List TimerSubscription)
unfolding order_by_expiry
find_expired_timers limit = do
  t ← now
  query (λ d. take (limit_or 100 limit) (order_by_expiry (select (is_due t d) d.timers)))
