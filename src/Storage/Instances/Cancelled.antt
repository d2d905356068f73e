-- ===== src/Storage/Instances/Cancelled.antt =====
-- `CancelInstance` of internal/storage/sqlite.go.
use romancy.Base.{
  String, ℕ, ◌≡◌, refl, sym, ◌<◌, ◌⊎◌, inl, inr, Bool, true, false, Option, none, some, List, arith,
  ◌==◌, find, update, count, if◌then◌else◌,
}
use romancy.Errors.{Result, ok, err, sql_error, not_cancellable}
use romancy.Storage.Models.{WorkflowInstance, cancelled}
use romancy.Storage.World.{World, seconds, ◌>>=◌, exec, now, pure, raise}
use romancy.Storage.World.Keeps.{statement_cases}
use romancy.Storage.Instances.{by_id, is_cancellable, can_cancel, cancel_instance}
use romancy.Storage.Instances.Rows.{
  DistinctKeys, changed?, find-update, count-find, passes, update_none, HasKey, find-HasKey,
}

abbrev pub row : String → World → Option WorkflowInstance
row id w = find (by_id id) w.db.instances

abbrev pub now_cancelled : ℕ → WorkflowInstance → WorkflowInstance
now_cancelled t r = record r { status = cancelled; updated_at = t }

-- A row in a state that can be cancelled, and the same row cancelled.
abbrev pub Cancelled : ℕ → Option WorkflowInstance → Option WorkflowInstance → Type 0
Cancelled t (some r) o = (is_cancellable r.status ≡ true) × (o ≡ some (now_cancelled t r))
Cancelled t none o = ⊥

abbrev pub Cancels : String → World → Result (Unit {0}) × World → Type 0
Cancels id w (ok x, v) = Cancelled (seconds w) (row id w) (row id v)
Cancels id w (err e, v) =
    (v.db ≡ w.db)
    × ((e ≡ sql_error)
        ⊎ ((e ≡ not_cancellable) × (passes (λ r. is_cancellable r.status) (row id w) ≡ 0)))

was-Cancelled :
    (id : String) (t : ℕ) (o : Option WorkflowInstance)
    → HasKey id o
    → 0 < passes (λ r. is_cancellable r.status) o
    → Cancelled t o (changed? (can_cancel id) (now_cancelled t) o)
was-Cancelled id t none k h = absurd (omega arith)
was-Cancelled id t (some r) k h = ground arith

-- The end of the method, by the number of rows that the update touched.
cancel_on :
    (id : String) (w : World) (rest : List Bool) (n : ℕ) (c : Bool)
    → count (can_cancel id) w.db.instances ≡ n
    → passes (λ r. is_cancellable r.status) (row id w) ≡ n
    → (n == 0) ≡ c
    → let v : World = record w {
      db = record (w.db) {
        instances = update (can_cancel id) (now_cancelled (seconds w)) (w.db).instances;
      };
      faults = rest;
    } in
      Cancels id w ((if c then raise not_cancellable else pure tt) v)
unfolding raise pure
cancel_on id w rest n true counted free none_found = (
  rw (update_none (can_cancel id) (now_cancelled (seconds w)) w.db.instances (ground arith)) refl,
  inr (refl, ground arith),
)
cancel_on id w rest n false counted free found =
    rw (find-update id (can_cancel id) (now_cancelled (seconds w)) (λ r. refl) w.db.instances)
      (was-Cancelled id (seconds w) (row id w) (find-HasKey id w.db.instances) (ground arith))

-- `CancelInstance`, on every branch: where it succeeds the instance had a row in a state that can be
-- cancelled, and the row is now cancelled and otherwise the same; where it fails nothing has
-- changed, and either the driver failed, or there was no such row. No two rows have one id.
pub cancel_instance-Cancels :
    (id : String) (w : World) → DistinctKeys w.db.instances → Cancels id w (cancel_instance id w)
unfolding cancel_instance ◌>>=◌ exec now
cancel_instance-Cancels id w d =
    statement_cases
      (λ out.
        Cancels id w
          (((λ (u : World). out) >>= λ n. if n == 0 then raise not_cancellable else pure tt) w))
      _ w (λ rest. (refl, inl refl))
      (λ rest.
        cancel_on id w rest _ _ refl
          (sym (count-find id (λ r. is_cancellable r.status) w.db.instances d)) refl)
