-- ===== src/Replay/Locked.antt =====
-- `ResumeWorkflow` of internal/replay/engine.go where another worker has the instance's lock.
use romancy.Base.{String, ℕ, ◌≡◌, refl, Bool, true, false, Option, none, some, arith, ltb}
use romancy.Errors.{Result, ok, err}
use romancy.Storage.World.{World, Outside, seconds, ◌>>=◌, now, exec, pure}
use romancy.Storage.World.Keeps.{statement_cases}
use romancy.Storage.Locks.{is_free, try_acquire_lock}
use romancy.Storage.Locks.Exclusion.{row, Acquires, try_acquire_lock-Acquires}
use romancy.Storage.Instances.Rows.{DistinctKeys, passes}
use romancy.Replay.{Workflow, run_locked, resume_workflow}

-- An error, with the tables as they were and no call made.
abbrev pub Refused : World → Option (Result (Unit {0}) × World) → Type 0
Refused w none = ⊥
Refused w (some (ok x, v)) = ⊥
Refused w (some (err e, v)) = (v.db ≡ w.db) × (v.calls ≡ w.calls)

try_acquire_lock-calls :
    (id worker : String) (timeout : ℕ) (w : World)
    → (try_acquire_lock id worker timeout w).1.calls ≡ w.calls
unfolding try_acquire_lock ◌>>=◌ exec now pure
try_acquire_lock-calls id worker timeout w =
    statement_cases (λ out. (((λ (u : World). out) >>= λ n. pure (ltb 0 n)) w).1.calls ≡ w.calls) _
      w (λ rest. refl) (λ rest. refl)

-- A worker that may not take the lock of an instance runs no workflow on it: where the instance has
-- no row, or its lock is another worker's and has not expired, resuming it returns an error, makes
-- no call and leaves the tables as they were. No two rows have one instance id.
pub resume_workflow-Refused :
    (o : Outside) (id worker : String) (has_runner : Bool) (fuel : ℕ) (wf : Workflow) (w : World)
    → DistinctKeys w.db.instances
    → passes (is_free (seconds w) worker) (row id w) ≡ 0
    → Refused w (resume_workflow o id worker has_runner fuel wf w)
unfolding resume_workflow
resume_workflow-Refused o id worker has_runner fuel wf w d held =
    go (try_acquire_lock id worker 300 w).0 (try_acquire_lock id worker 300 w).1
      (try_acquire_lock-Acquires id worker 300 w d) (try_acquire_lock-calls id worker 300 w)
  where
    go :
        (r : Result Bool) (v : World)
        → Acquires id worker 300 w (r, v)
        → v.calls ≡ w.calls
        → Refused w (run_locked o id worker has_runner fuel wf (r, v))
    go (err e) v a c = (a, c)
    go (ok false) v a c = (a.0, c)
    go (ok true) v a c = absurd (omega (arith, a.1, held))
