-- ===== src/App/Results/Completed.antt =====
-- The result of a workflow that has completed: internal/replay/engine.go, and GetWorkflowResult of
-- workflow.go.
use romancy.Base.{
  String, ℕ, ◌≡◌, refl, sym, ap, subst, ◌∙◌, Bool, Option, none, some, [], find, update, arith,
}
use romancy.Json.{Json, encodable}
use romancy.Errors.{Result, ok, err, wrap, message}
use romancy.Storage.Models.{WorkflowInstance, completed}
use romancy.Storage.World.{
  World, Outside, seconds, in_context, query, exec_, now, statement, pure, ◌>>=◌, ◌>>◌,
}
use romancy.Storage.Instances.{by_id, get_instance, update_instance_output, update_instance_status}
use romancy.Storage.Instances.Rows.{changed?, find-update, HasKey, find-HasKey}
use romancy.Replay.{complete_workflow}
use romancy.App.Results.{
  get_app_instance, or_not_found, result_found, with_output, decoded_output, get_workflow_result,
}

abbrev completed_row_at : Json → ℕ → WorkflowInstance → WorkflowInstance
completed_row_at j t r = record r { output_data = some j; status = completed; updated_at = t }

abbrev touched_row : ℕ → WorkflowInstance → WorkflowInstance
touched_row t r = record r { status = completed; updated_at = t }

abbrev completed_world : String → Json → World → World
completed_world id j w = record w {
  db = record (w.db) {
    instances =
        update (by_id id) (touched_row (seconds w))
          (update (by_id id) (completed_row_at j (seconds w)) (w.db).instances);
  };
  faults = [];
}

complete-world :
    (o : Outside) (id worker : String) (has_runner : Bool) (j : Json) (w : World)
    → w.faults ≡ []
    → complete_workflow o id worker has_runner (encodable j) w ≡ (ok tt, completed_world id j w)
unfolding complete_workflow update_instance_output update_instance_status in_context ◌>>=◌ ◌>>◌
    exec_ statement now
complete-world o id worker has_runner j w f =
    subst
      (λ fs.
        complete_workflow o id worker has_runner (encodable j) (record w { faults = fs })
        ≡ (ok tt, completed_world id j w))
      (sym f) refl

completed_row :
    (id : String) (j : Json) (t : ℕ) (r : WorkflowInstance)
    → r.instance_id ≡ id
    → changed? (by_id id) (touched_row t) (changed? (by_id id) (completed_row_at j t) (some r))
      ≡ some (completed_row_at j t r)
completed_row id j t r e = ground arith

found_completed :
    (id : String) (j : Json) (w : World) (r : WorkflowInstance)
    → find (by_id id) w.db.instances ≡ some r
    → find (by_id id) (completed_world id j w).db.instances
      ≡ some (completed_row_at j (seconds w) r)
found_completed id j w r found =
    find-update id (by_id id) (touched_row (seconds w)) (λ x. refl)
      (update (by_id id) (completed_row_at j (seconds w)) w.db.instances)
    ∙ ap (changed? (by_id id) (touched_row (seconds w))) (
        find-update id (by_id id) (completed_row_at j (seconds w)) (λ x. refl) w.db.instances
        ∙ ap (changed? (by_id id) (completed_row_at j (seconds w))) found)
    ∙ completed_row id j (seconds w) r (subst (HasKey id) found (find-HasKey id w.db.instances))

result_of :
    (decode : Json → Option Json) (id : String) (r : WorkflowInstance) (w : World)
    → w.faults ≡ []
    → find (by_id id) w.db.instances ≡ some r
    → get_workflow_result decode id w ≡ result_found decode (ok r, w)
unfolding get_workflow_result get_app_instance get_instance query statement ◌>>=◌ pure
result_of decode id r w f found =
    subst
      (λ fs.
        get_workflow_result decode id (record w { faults = fs })
        ≡ result_found decode (ok r, record w { faults = fs }))
      (sym f) (ap (λ x. result_found decode (or_not_found id x (record w { faults = [] }))) found)

decoded_result :
    (decode : Json → Option Json) (id : String) (r : WorkflowInstance) (j v : Json)
    → decode j ≡ some v
    → r.instance_id ≡ id
    → with_output decode r none (decoded_output decode (some j))
      ≡ ok (record { instance_id = id; status = r.status; output = some v; failure = none })
decoded_result decode id r j v decoded e =
    ap
      (λ x. with_output decode r none (elim x [
        | none ↦ err (wrap "failed to deserialize output" (message "json: cannot unmarshal"))
        | some y ↦ ok (some y)
      ]))
      decoded
    ∙ ap (λ i. ok (record { instance_id = i; status = r.status; output = some v; failure = none }))
        e

-- The output of a workflow is what its caller gets: let the driver not fail and the instance have a
-- row. Where the engine completes the workflow with a value that has an encoding, that succeeds,
-- and `GetWorkflowResult` after it returns the instance's id, the status "completed", no error, and
-- the value as it is decoded, where it can be.
pub complete_workflow-get_workflow_result :
    (o : Outside) (id worker : String) (has_runner : Bool) (j v : Json)
    (decode : Json → Option Json) (r : WorkflowInstance) (w : World)
    → w.faults ≡ []
    → find (by_id id) w.db.instances ≡ some r
    → decode j ≡ some v
    → let out : Result (Unit {0}) × World =
        complete_workflow o id worker has_runner (encodable j) w in
      (out.0 ≡ ok tt)
      × ((get_workflow_result decode id out.1).0
          ≡ ok (record { instance_id = id; status = completed; output = some v; failure = none }))
complete_workflow-get_workflow_result o id worker has_runner j v decode r w f found decoded =
    subst
      (λ out.
        (out.0 ≡ ok tt)
        × ((get_workflow_result decode id out.1).0
            ≡ ok
                (record { instance_id = id; status = completed; output = some v; failure = none })))
      (sym (complete-world o id worker has_runner j w f))
      (
        refl,
        ap (λ x. x.0)
              (result_of decode id (completed_row_at j (seconds w) r) (completed_world id j w) refl
                (found_completed id j w r found))
            ∙ decoded_result decode id (completed_row_at j (seconds w) r) j v decoded
                (subst (HasKey id) found (find-HasKey id w.db.instances)),
      )
