-- ===== src/Storage/Locks/Schedules.antt =====
-- Interleavings of the lock manager's methods (internal/storage/sqlite.go), called by any workers
-- at any times, with any failures of the SQL driver.
use romancy.Base.{
  String, ℕ, ◌/◌, ◌≤◌, ◌≡◌, refl, ◌≢◌, ◌⊎◌, Bool, false, Option, none, some, List, [], ◌∷◌, arith,
  ◌&&◌, find, update,
}
use romancy.Storage.Models.{Db, WorkflowInstance}
use romancy.Storage.World.{World, seconds, exec_}
use romancy.Storage.World.Keeps.{
  Keeps, Keeps-now, Keeps-bind, Keeps-then, Keeps-exec, Keeps-exec_, Keeps-query, Keeps-pure,
}
use romancy.Storage.Instances.{by_id}
use romancy.Storage.Instances.Rows.{changed?, find-update, HasKey, find-HasKey}
use romancy.Storage.Locks.{
  is_free, is_stale, locked, unlocked, is_held_by, try_acquire_lock, release_lock, refresh_lock,
  cleanup_stale_locks,
}
use romancy.Storage.Locks.Exclusion.{HeldUntil}

pub data LockCall : Type 0 where
  acquires : (instance_id worker : String) (timeout : ℕ) → LockCall
  releases : (instance_id worker : String) → LockCall
  refreshes : (instance_id worker : String) (timeout : ℕ) → LockCall
  cleans_up : LockCall

unfoldable pub call : LockCall → World → World
call (acquires id worker timeout) w = (try_acquire_lock id worker timeout w).1
call (releases id worker) w = (release_lock id worker w).1
call (refreshes id worker timeout) w = (refresh_lock id worker timeout w).1
call cleans_up w = (cleanup_stale_locks w).1

-- Calls in the order in which the database runs them, each with its time.
unfoldable pub run_calls : List (ℕ × LockCall) → World → World
unfolding call
run_calls [] w = w
run_calls ((t, c) ∷ cs) w = run_calls cs (call c (record w { clock = t }))

-- A call that the holder of the lock of the instance does not make itself.
abbrev pub ByOthers : String → String → LockCall → Type 0
ByOthers id holder (acquires i worker timeout) = (i ≢ id) ⊎ (worker ≢ holder)
ByOthers id holder (releases i worker) = (i ≢ id) ⊎ (worker ≢ holder)
ByOthers id holder (refreshes i worker timeout) = (i ≢ id) ⊎ (worker ≢ holder)
ByOthers id holder cleans_up = Unit

abbrev pub Foreign : String → String → ℕ → List (ℕ × LockCall) → Type 0
Foreign id holder e [] = Unit
Foreign id holder e ((t, c) ∷ cs) =
    (t / 1000000000 ≤ e) × ByOthers id holder c × Foreign id holder e cs

module _ (id holder : String) (e : ℕ) where
  -- An update that leaves the holder's row alone.
  abbrev Spares : (WorkflowInstance → Bool) → Type 0
  Spares p = (r : WorkflowInstance) → HasKey id (some r) → HeldUntil holder e (some r) → p r ≡ false

  spared :
      (p : WorkflowInstance → Bool) (f : WorkflowInstance → WorkflowInstance)
      → Spares p
      → (o : Option WorkflowInstance) → HasKey id o
      → HeldUntil holder e o
      → HeldUntil holder e (changed? p f o)
  spared p f safe none k h = h
  spared p f safe (some r) k h = ground (arith, safe r k h)

  after_update :
      (p : WorkflowInstance → Bool) (f : WorkflowInstance → WorkflowInstance)
      → ((r : WorkflowInstance) → (f r).instance_id ≡ r.instance_id)
      → Spares p
      → (rows : List WorkflowInstance) → HeldUntil holder e (find (by_id id) rows)
      → HeldUntil holder e (find (by_id id) (update p f rows))
  after_update p f keeps safe rows h =
      rw (find-update id p f keeps rows)
        (spared p f safe (find (by_id id) rows) (find-HasKey id rows) h)

  abbrev pub Held : Db → Type 0
  Held d = HeldUntil holder e (find (by_id id) d.instances)

  module _ (t : ℕ) where
    Keeps-update :
        (p : WorkflowInstance → Bool) (f : WorkflowInstance → WorkflowInstance)
        → ((r : WorkflowInstance) → (f r).instance_id ≡ r.instance_id)
        → Spares p
        → Keeps t Held (exec_ (λ d. record d { instances = update p f d.instances }))
    Keeps-update p f keeps safe = Keeps-exec_ _ (λ d h. after_update p f keeps safe d.instances h)

    acquires-Held :
        (i worker : String) (timeout : ℕ)
        → t / 1000000000 ≤ e
        → (i ≢ id) ⊎ (worker ≢ holder)
        → Keeps t Held (try_acquire_lock i worker timeout)
    unfolding try_acquire_lock
    acquires-Held i worker timeout early other =
        let s : ℕ = t / 1000000000 in
        Keeps-now _ (
          Keeps-bind _ _
            (Keeps-exec _ (λ d h.
              after_update (λ r. by_id i r && is_free s worker r) (locked s worker timeout)
                (λ r. refl) (λ r k held. ground arith) d.instances h))
            (λ n. Keeps-pure _))

    releases-Held :
        (i worker : String) → (i ≢ id) ⊎ (worker ≢ holder) → Keeps t Held (release_lock i worker)
    unfolding release_lock
    releases-Held i worker other = Keeps-now _ (
        Keeps-update (λ r. by_id i r && is_held_by worker r.locked_by) (unlocked (t / 1000000000))
          (λ r. refl) (λ r k held. ground arith))

    refreshes-Held :
        (i worker : String) (timeout : ℕ)
        → (i ≢ id) ⊎ (worker ≢ holder)
        → Keeps t Held (refresh_lock i worker timeout)
    unfolding refresh_lock
    refreshes-Held i worker timeout other = Keeps-now _ (
        Keeps-update (λ r. by_id i r && is_held_by worker r.locked_by) _ (λ r. refl)
          (λ r k held. ground arith))

    cleanup-Held : t / 1000000000 ≤ e → Keeps t Held cleanup_stale_locks
    unfolding cleanup_stale_locks
    cleanup-Held early =
        let s : ℕ = t / 1000000000 in
        Keeps-now _ (
          Keeps-bind _ _ (Keeps-query _) (λ stale.
            Keeps-then _ _
              (Keeps-update (is_stale s) (unlocked s) (λ r. refl) (λ r k held. ground arith))
              (Keeps-pure stale)))

  call-Held :
      (c : LockCall) (w : World)
      → seconds w ≤ e
      → ByOthers id holder c
      → Held w.db
      → Held (call c w).db
  unfolding call
  call-Held (acquires i worker timeout) w early other h =
      ((acquires-Held w.clock i worker timeout early other).at w refl h).1
  call-Held (releases i worker) w early other h =
      ((releases-Held w.clock i worker other).at w refl h).1
  call-Held (refreshes i worker timeout) w early other h =
      ((refreshes-Held w.clock i worker timeout other).at w refl h).1
  call-Held cleans_up w early other h = ((cleanup-Held w.clock early).at w refl h).1

  -- Mutual exclusion: a worker that holds an instance's lock to the end of a second still holds it
  -- after any calls that others make up to that second, the cleanup of stale locks included.
  pub run_calls-Held :
      (cs : List (ℕ × LockCall)) (w : World)
      → Foreign id holder e cs
      → Held w.db
      → Held (run_calls cs w).db
  unfolding run_calls
  run_calls-Held [] w f h = h
  run_calls-Held ((t, c) ∷ cs) w f h =
      run_calls-Held cs (call c (record w { clock = t })) f.2
        (call-Held c (record w { clock = t }) f.0 f.1 h)
