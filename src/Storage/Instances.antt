-- ===== src/Storage/Instances.antt =====
-- internal/storage/sqlite.go, the instance manager. The table `workflow_definitions`, into which
-- `CreateInstance` also puts a row and which no method reads, is left out with that statement's
-- effect; the statement itself can fail.
pub mod Rows
pub mod Cancelled
pub mod Recovered
use romancy.Base.{
  String, ℕ, Bool, true, false, Option, none, some, List, [], ◌∷◌, ◌++◌, ite, same, ◌≟◌, ◌==◌, ◌&&◌,
  leb, zero, suc, select, update, find, count, any, take, if◌then◌else◌,
}
use romancy.Json.{Json}
use romancy.Errors.{Error, ok, err, unique_violation, not_cancellable}
use romancy.Storage.Models.{
  Db, WorkflowInstance, WorkflowStatus, running, completed, failed, cancelled, compensating,
}
use romancy.Storage.World.{M, pure, raise, ◌>>=◌, ◌>>◌, statement, query, exec, exec_, now}

abbrev pub by_id : String → WorkflowInstance → Bool
by_id instance_id r = r.instance_id ≟ instance_id

-- The states from which `CancelInstance` cancels; `pending` is no state of the table.
abbrev pub is_cancellable : WorkflowStatus → Bool
is_cancellable completed = false
is_cancellable failed = false
is_cancellable cancelled = false
is_cancellable compensating = false
is_cancellable _ = true

abbrev pub is_running : WorkflowStatus → Bool
is_running running = true
is_running _ = false

unfoldable pub create_instance : WorkflowInstance → M (Unit {0})
create_instance r = do
  exec_ (λ d. d)
  statement λ d.
      if any (by_id r.instance_id) d.instances
      then (err unique_violation, d)
      else (ok tt, record d { instances = d.instances ++ new_row ∷ [] })
  where
    new_row : WorkflowInstance
    new_row = record r {
      framework = ite (same r.framework "") "go" r.framework;
      output_data = none;
      current_activity_id = none;
      locked_by = none;
      locked_at = none;
      lock_expires_at = none;
    }

-- The row, or `none` for `sql.ErrNoRows`.
unfoldable pub get_instance : String → M (Option WorkflowInstance)
get_instance instance_id = query (λ d. find (by_id instance_id) d.instances)

-- `errorMsg` is an argument that the method ignores.
unfoldable pub update_instance_status : String → WorkflowStatus → M (Unit {0})
update_instance_status instance_id status = do
  t ← now
  exec_ λ d. record d {
    instances =
        update (by_id instance_id) (λ r. record r { status = status; updated_at = t }) d.instances;
  }

unfoldable pub update_instance_activity : String → String → M (Unit {0})
update_instance_activity instance_id activity_id = do
  t ← now
  exec_ λ d. record d {
    instances =
        update (by_id instance_id)
          (λ r. record r { current_activity_id = some activity_id; updated_at = t }) d.instances;
  }

unfoldable pub update_instance_output : String → Json → M (Unit {0})
update_instance_output instance_id output = do
  t ← now
  exec_ λ d. record d {
    instances =
        update (by_id instance_id)
          (λ r. record r { output_data = some output; status = completed; updated_at = t })
          d.instances;
  }

abbrev pub can_cancel : String → WorkflowInstance → Bool
can_cancel instance_id r = by_id instance_id r && is_cancellable r.status

unfoldable pub cancel_instance : String → M (Unit {0})
cancel_instance instance_id = do
  t ← now
  rows ← exec λ d. (
    count (can_cancel instance_id) d.instances,
    record d {
      instances =
          update (can_cancel instance_id) (λ r. record r { status = cancelled; updated_at = t })
            d.instances;
    },
  )
  if rows == 0 then raise not_cancellable else pure tt

-- Rows by `updated_at`, the oldest first, as `ORDER BY updated_at ASC` gives them.
unfoldable pub insert_by_update : WorkflowInstance → List WorkflowInstance → List WorkflowInstance
insert_by_update r [] = r ∷ []
insert_by_update r (s ∷ rows) =
    if leb r.updated_at s.updated_at then r ∷ s ∷ rows else s ∷ insert_by_update r rows

unfoldable pub order_by_update : List WorkflowInstance → List WorkflowInstance
unfolding insert_by_update
order_by_update [] = []
order_by_update (r ∷ rows) = insert_by_update r (order_by_update rows)

-- `locked_by IS NULL OR locked_by = ''`
abbrev pub is_unlocked : Option String → Bool
is_unlocked none = true
is_unlocked (some w) = w ≟ ""

abbrev pub is_resumable : WorkflowInstance → Bool
is_resumable r = is_running r.status && is_unlocked r.locked_by && (r.framework ≟ "go")

-- The default for a limit of 0; a negative limit is not modelled.
abbrev pub limit_or : ℕ → ℕ → ℕ
limit_or default zero = default
limit_or default (suc n) = suc n

unfoldable pub find_resumable_workflows : ℕ → M (List WorkflowInstance)
unfolding order_by_update
find_resumable_workflows limit =
    query (λ d. take (limit_or 100 limit) (order_by_update (select is_resumable d.instances)))
