-- ===== src/Storage/Locks/Exclusion.antt =====
-- The instance lock of internal/storage/sqlite.go, under any workers, any clock and any failures
-- of the SQL driver.
use romancy.Base.{
  String, ℕ, ◌+◌, ◌≡◌, refl, sym, ◌<◌, Bool, true, false, Option, none, some, List, arith, ltb,
  ◌&&◌, find, update, count,
}
use romancy.Errors.{Result, ok, err}
use romancy.Storage.Models.{WorkflowInstance}
use romancy.Storage.World.{World, seconds, ◌>>=◌, exec, now, pure}
use romancy.Storage.World.Keeps.{statement_cases}
use romancy.Storage.Instances.{by_id}
use romancy.Storage.Instances.Rows.{
  DistinctKeys, changed?, find-update, count-find, passes, update_none, HasKey, find-HasKey,
}
use romancy.Storage.Locks.{is_free, locked, try_acquire_lock}

abbrev pub row : String → World → Option WorkflowInstance
row id w = find (by_id id) w.db.instances

-- The worker holds the lock of the instance, to the end of the given second.
abbrev pub HeldUntil : String → ℕ → Option WorkflowInstance → Type 0
HeldUntil worker e none = ⊥
HeldUntil worker e (some r) = (r.locked_by ≡ some worker) × (r.lock_expires_at ≡ some e)

-- What `TryAcquireLock` has done, by its answer: where it says yes the row was free and is now the
-- worker's, where it says no the row was not free, and then, as on an error, nothing has changed.
abbrev pub Acquires : String → String → ℕ → World → Result Bool × World → Type 0
Acquires id worker timeout w (ok true, v) =
    HeldUntil worker (seconds w + timeout) (row id v)
    × (passes (is_free (seconds w) worker) (row id w) ≡ 1)
Acquires id worker timeout w (ok false, v) =
    (v.db ≡ w.db) × (passes (is_free (seconds w) worker) (row id w) ≡ 0)
Acquires id worker timeout w (err e, v) = v.db ≡ w.db

-- The update of `TryAcquireLock`.
abbrev taken : String → String → ℕ → ℕ → List WorkflowInstance → List WorkflowInstance
taken id worker t timeout = update (λ r. by_id id r && is_free t worker r) (locked t worker timeout)

passes_taken :
    (id worker : String) (t timeout : ℕ) (o : Option WorkflowInstance)
    → HasKey id o
    → 0 < passes (is_free t worker) o
    → HeldUntil worker
        (t + timeout)
        (changed? (λ r. by_id id r && is_free t worker r) (locked t worker timeout) o)
      × (passes (is_free t worker) o ≡ 1)
passes_taken id worker t timeout none k h = absurd (omega arith)
passes_taken id worker t timeout (some r) k h = ground arith

acquire_on :
    (id worker : String) (timeout : ℕ) (w : World) (rest : List Bool) (n : ℕ) (c : Bool)
    → count (λ r. by_id id r && is_free (seconds w) worker r) w.db.instances ≡ n
    → passes (is_free (seconds w) worker) (row id w) ≡ n
    → ltb 0 n ≡ c
    → Acquires id worker timeout w (
      ok c,
      record w {
        db = record (w.db) { instances = taken id worker (seconds w) timeout (w.db).instances };
        faults = rest;
      },
    )
acquire_on id worker timeout w rest n true counted free positive =
    rw (find-update id _ (locked (seconds w) worker timeout) (λ r. refl) w.db.instances) (
      passes_taken id worker (seconds w) timeout (row id w) (find-HasKey id w.db.instances)
        (ground arith))
acquire_on id worker timeout w rest n false counted free positive = (
  rw (
      update_none (λ r. by_id id r && is_free (seconds w) worker r)
        (locked (seconds w) worker timeout) w.db.instances (ground arith)),
  ground arith,
)

-- `TryAcquireLock`, on every branch: it answers yes exactly where the instance has a row whose
-- lock is free, and the row is then the worker's for the time asked; it answers no, or fails, with
-- the tables unchanged. No two rows have
-- one instance id.
pub try_acquire_lock-Acquires :
    (id worker : String) (timeout : ℕ) (w : World)
    → DistinctKeys w.db.instances
    → Acquires id worker timeout w (try_acquire_lock id worker timeout w)
unfolding try_acquire_lock ◌>>=◌ exec now pure
try_acquire_lock-Acquires id worker timeout w d =
    statement_cases
      (λ out.
        Acquires id worker timeout w
          (elim out.0 [ ok n ↦ (ok (ltb 0 n), out.1) | err e ↦ (err e, out.1) ]))
      _ w (λ rest. refl)
      (λ rest.
        acquire_on id worker timeout w rest _ _ refl
          (sym (count-find id (is_free (seconds w) worker) w.db.instances d)) refl)
