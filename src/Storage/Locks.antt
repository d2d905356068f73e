-- ===== src/Storage/Locks.antt =====
-- internal/storage/sqlite.go, the lock manager. A lock is three columns of the instance's row.
pub mod Exclusion
pub mod Schedules
use romancy.Base.{
  String, ℕ, ◌+◌, Bool, true, false, Option, none, some, List, [], ◌∷◌, ltb, ◌≟◌, ◌&&◌, ◌||◌,
  is_some, select, update, count, take,
}
use romancy.Storage.Models.{
  Db, WorkflowInstance, WorkflowStatus, running, waiting_for_event, waiting_for_timer,
}
use romancy.Storage.Instances.{by_id}
use romancy.Storage.World.{M, pure, ◌>>=◌, ◌>>◌, query, exec, exec_, now}

-- `datetime(lock_expires_at) < datetime('now')`; a comparison with NULL is not true.
abbrev pub is_expired : ℕ → Option ℕ → Bool
is_expired t (some e) = ltb e t
is_expired t none = false

-- `locked_by = ?`
abbrev pub is_held_by : String → Option String → Bool
is_held_by worker (some w) = w ≟ worker
is_held_by worker none = false

abbrev pub is_null {ℓ} : {A : Type ℓ} → Option A → Bool
is_null none = true
is_null (some _) = false

-- The condition under which a worker may take the lock of a row.
abbrev pub is_free : ℕ → String → WorkflowInstance → Bool
is_free t worker r =
    is_null r.locked_by || is_expired t r.lock_expires_at || is_held_by worker r.locked_by

abbrev pub locked : ℕ → String → ℕ → WorkflowInstance → WorkflowInstance
locked t worker timeout r = record r {
  locked_by = some worker;
  locked_at = some t;
  lock_expires_at = some (t + timeout);
  updated_at = t;
}

abbrev pub unlocked : ℕ → WorkflowInstance → WorkflowInstance
unlocked t r = record r {
  locked_by = none;
  locked_at = none;
  lock_expires_at = none;
  updated_at = t;
}

unfoldable pub try_acquire_lock : String → String → ℕ → M Bool
try_acquire_lock instance_id worker timeout = do
  t ← now
  affected ← exec λ d. (
    count (λ r. by_id instance_id r && is_free t worker r) d.instances,
    record d {
      instances =
          update (λ r. by_id instance_id r && is_free t worker r) (locked t worker timeout)
            d.instances;
    },
  )
  pure (ltb 0 affected)

unfoldable pub release_lock : String → String → M (Unit {0})
release_lock instance_id worker = do
  t ← now
  exec_ λ d. record d {
    instances =
        update (λ r. by_id instance_id r && is_held_by worker r.locked_by) (unlocked t) d.instances;
  }

unfoldable pub refresh_lock : String → String → ℕ → M (Unit {0})
refresh_lock instance_id worker timeout = do
  t ← now
  exec_ λ d. record d {
    instances =
        update (λ r. by_id instance_id r && is_held_by worker r.locked_by)
          (λ r. record r { lock_expires_at = some (t + timeout); updated_at = t }) d.instances;
  }

-- `status IN ('running', 'waiting_for_event', 'waiting_for_timer')`
abbrev pub is_recoverable : WorkflowStatus → Bool
is_recoverable running = true
is_recoverable waiting_for_event = true
is_recoverable waiting_for_timer = true
is_recoverable _ = false

abbrev pub is_stale : ℕ → WorkflowInstance → Bool
is_stale t r = is_some r.locked_by && is_expired t r.lock_expires_at && (r.framework ≟ "go")

-- The rows to resume are at most 100; every stale lock is cleared.
unfoldable pub cleanup_stale_locks : M (List WorkflowInstance)
cleanup_stale_locks = do
  t ← now
  stale ← query λ d. take 100 (select (λ r. is_stale t r && is_recoverable r.status) d.instances)
  exec_ λ d. record d { instances = update (is_stale t) (unlocked t) d.instances }
  pure stale
