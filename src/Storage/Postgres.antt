-- ===== src/Storage/Postgres.antt =====
-- internal/storage/postgres.go: the locks of the PostgreSQL storage, where they are made otherwise
-- than in sqlite.go. A statement outside a transaction is one of its own, so what `FOR UPDATE` locks
-- is free again when it ends.
pub mod Raced
use romancy.Base.{
  String, ℕ, ◌+◌, ◌*◌, Bool, true, false, Option, none, some, List, [], ◌∷◌, ltb, ◌≟◌, ◌&&◌, ◌||◌,
  is_some, select, update, find, take, ◌++◌, if◌then◌else◌,
}
use romancy.Storage.Models.{Db, WorkflowInstance, SystemLock}
use romancy.Storage.Instances.{by_id, is_unlocked}
use romancy.Storage.Locks.{is_held_by, is_expired, is_recoverable, is_stale, unlocked}
use romancy.Storage.World.{M, pure, ◌>>=◌, ◌>>◌, query, exec, exec_, now_ns}
use romancy.Storage.Groups.{is_lock, may_take}

-- The times of the tables. `kept` is what a column holds of a time, given in nanoseconds since 1970,
-- and `read` the time that is read from it; `NOW()` is compared as it would be kept.
pub record Times : Type 0 where
  pub kept : ℕ → ℕ
  pub read : ℕ → ℕ

-- `time.Now().Add(timeoutSec * time.Second)`
abbrev pub expiry : ℕ → ℕ → ℕ
expiry clock timeout = clock + timeout * 1000000000

module _ (times : Times) where
  -- `currentLockExpiresAt.Valid && currentLockExpiresAt.Time.Before(now)`
  abbrev pub is_past : ℕ → Option ℕ → Bool
  is_past clock none = false
  is_past clock (some e) = ltb (times.read e) clock

  -- `canAcquire`
  unfoldable pub can_acquire : ℕ → String → WorkflowInstance → Bool
  can_acquire clock worker r =
      is_unlocked r.locked_by || is_held_by worker r.locked_by || is_past clock r.lock_expires_at

  abbrev pub locked_row : ℕ → String → ℕ → WorkflowInstance → WorkflowInstance
  locked_row clock worker timeout r = record r {
    locked_by = some worker;
    locked_at = some (times.kept clock);
    lock_expires_at = some (times.kept (expiry clock timeout));
    updated_at = times.kept clock;
  }

  -- The first statement of `TryAcquireLock`; `skipped` says that another transaction has a lock on
  -- the row at that moment.
  unfoldable pub select_for_update : String → Bool → M (Option WorkflowInstance)
  select_for_update instance_id skipped =
      query (λ d. if skipped then none else find (by_id instance_id) d.instances)

  unfoldable pub write_lock : ℕ → String → String → ℕ → M (Unit {0})
  write_lock clock instance_id worker timeout = exec_ λ d. record d {
    instances = update (by_id instance_id) (locked_row clock worker timeout) d.instances;
  }

  -- What follows the first statement.
  unfoldable pub acquire_selected : ℕ → String → String → ℕ → Option WorkflowInstance → M Bool
  acquire_selected clock instance_id worker timeout none = pure false
  acquire_selected clock instance_id worker timeout (some r) =
      if can_acquire clock worker r
      then write_lock clock instance_id worker timeout >> pure true
      else pure false

  unfoldable pub try_acquire_lock : Bool → String → String → ℕ → M Bool
  try_acquire_lock skipped instance_id worker timeout = do
    clock ← now_ns
    row ← select_for_update instance_id skipped
    acquire_selected clock instance_id worker timeout row

  unfoldable pub release_lock : String → String → M (Unit {0})
  release_lock instance_id worker = do
    clock ← now_ns
    exec_ λ d. record d {
      instances =
          update (λ r. by_id instance_id r && is_held_by worker r.locked_by)
            (unlocked (times.kept clock)) d.instances;
    }

  unfoldable pub refresh_lock : String → String → ℕ → M (Unit {0})
  refresh_lock instance_id worker timeout = do
    clock ← now_ns
    exec_ λ d. record d {
      instances =
          update (λ r. by_id instance_id r && is_held_by worker r.locked_by)
            (λ r. record r {
              lock_expires_at = some (times.kept (expiry clock timeout));
              updated_at = times.kept clock;
            })
            d.instances;
    }

  unfoldable pub cleanup_stale_locks : M (List WorkflowInstance)
  cleanup_stale_locks = do
    clock ← now_ns
    stale ← query λ d.
        take 100
          (select (λ r. is_stale (times.kept clock) r && is_recoverable r.status) d.instances)
    exec_ λ d. record d {
      instances = update (is_stale (times.kept clock)) (unlocked (times.kept clock)) d.instances;
    }
    pure stale

  abbrev pub system_row : ℕ → String → String → ℕ → SystemLock
  system_row clock name worker timeout = record {
    lock_name = name;
    locked_by = worker;
    locked_at = times.kept clock;
    lock_expires_at = times.kept (expiry clock timeout);
  }

  -- The upsert of `TryAcquireSystemLock` by the row in its way, and how many rows it touched.
  abbrev pub upserted : ℕ → String → String → ℕ → Db → Option SystemLock → ℕ × Db
  upserted clock name worker timeout d none =
      (1, record d { system_locks = d.system_locks ++ system_row clock name worker timeout ∷ [] })
  upserted clock name worker timeout d (some held) =
      if may_take (times.kept clock) worker held
      then (
        1,
        record d {
          system_locks =
              update (is_lock name) (λ _. system_row clock name worker timeout) d.system_locks;
        },
      )
      else (0, d)

  unfoldable pub upsert_system_lock : ℕ → String → String → ℕ → Db → ℕ × Db
  upsert_system_lock clock name worker timeout d =
      upserted clock name worker timeout d (find (is_lock name) d.system_locks)

  unfoldable pub try_acquire_system_lock : String → String → ℕ → M Bool
  try_acquire_system_lock name worker timeout = do
    clock ← now_ns
    affected ← exec (upsert_system_lock clock name worker timeout)
    pure (ltb 0 affected)
