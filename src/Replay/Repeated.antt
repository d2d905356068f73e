-- ===== src/Replay/Repeated.antt =====
-- A workflow that is run again from the history that its first run left (internal/replay/engine.go,
-- activity.go).
use romancy.Base.{
  String, ℕ, ◌≡◌, refl, sym, ap, ◌∙◌, subst, false, Option, none, some, List, [], ◌∷◌, any, find,
  select, arith,
}
use romancy.Json.{Json, Value, encodable, unencodable}
use romancy.Errors.{Error, Result, ok, err, message, error_text}
use romancy.Storage.Models.{HistoryEvent}
use romancy.Storage.World.{World, Outside}
use romancy.Storage.History.{of_instance, same_activity}
use romancy.Activity.{
  Activity, ExecutionContext, held, decoded, Reply, result, failure, Step, dynamic_type,
  assert_type, get_cached_result, typed_or_mismatch, replayed, hit, chosen_id, execute,
}
use romancy.Replay.{
  Workflow, returns, fails, executes, performs, load_history, new_execution_context, continued,
  run_workflow,
}
use romancy.Storage.History.Numbered.{DistinctEvents}
use romancy.Replay.Recorded.{Replayable, Match, Track, Tracks, Grows}
use romancy.Replay.Executed.{Executed, execute_or_replay-Executed}
use romancy.Replay.Chosen.{chosen_id-counts, chosen_id-kept, execute-cached}
use romancy.Replay.Loaded.{load_history-find, load_history-counts}

-- What a replay returns in place of a result: of an error only the text is left.
abbrev textual : Result Value → Result Value
textual (ok v) = ok v
textual (err e) = err (message (error_text e))

textual-typed :
    (i : String) (v : Option Value) → textual (typed_or_mismatch i v) ≡ typed_or_mismatch i v
unfolding error_text
textual-typed i none = refl
textual-typed i (some v) = refl

replayed-Match :
    (a : Activity) (i : String) (c d : Reply)
    → Match c d
    → replayed a i d ≡ textual (replayed a i c)
unfolding replayed
replayed-Match a i (result (held t (encodable j))) (result (decoded k)) m = rw (m.0) (
    ap (typed_or_mismatch i) (asserted t j m.1)
    ∙ sym (textual-typed i (assert_type a.output_type (held t (encodable j)))))
  where
    asserted :
        (t : String) (j : Json)
        → dynamic_type j ≡ some t
        → assert_type a.output_type (decoded j) ≡ assert_type a.output_type (held t (encodable j))
    asserted t j e = rw e refl
replayed-Match a i (result (decoded j)) (result (decoded k)) m =
    rw m (sym (textual-typed i (assert_type a.output_type (decoded j))))
replayed-Match a i (failure e) (failure f) m = ap err m
replayed-Match a i (result (held t (encodable j))) (result (held u v)) m = absurd m
replayed-Match a i (result (decoded j)) (result (held u v)) m = absurd m
replayed-Match a i (result (held t unencodable)) d m = absurd m
replayed-Match a i (result c) (failure e) m = absurd m
replayed-Match a i (failure e) (result c) m = absurd m

-- A workflow of activities alone that can be replayed: they answer what a replay can read
-- back, and it looks at no more than the text of their errors.
abbrev pub Repeatable : Outside → Workflow → Type 0
Repeatable o (returns v) = Unit
Repeatable o (fails e) = Unit
Repeatable o (executes a given input k) =
    Replayable o a
    × ((e : Error) → k (err (message (error_text e))) ≡ k (err e))
    × ((r : Result Value) → Repeatable o (k r))
Repeatable o (performs op k) = ⊥

-- Whatever one context has in its cache, another one has, as it is read back.
abbrev Echoes : ExecutionContext → ExecutionContext → Type 0
Echoes ec ec' =
    (i : String) (c : Reply)
    → get_cached_result i ec ≡ some c
    → (d : Reply) × (get_cached_result i ec' ≡ some d) × Match c d

-- A run of which another run, from a context with the same replies, repeats the result and does
-- nothing else.
abbrev Repeats : Workflow → ExecutionContext → Option Step → Type 0
Repeats wf ec none = Unit
Repeats wf ec (some (r, ecf, wf')) =
    Grows ec ecf
    × Tracks ecf wf'.db.history
    × (ecf.instance_id ≡ ec.instance_id)
    × ((o : Outside) (fuel : ℕ) (ec' : ExecutionContext) (w : World)
        → ec.activity_counts ≡ ec'.activity_counts
        → Echoes ecf ec'
        → (ec'' : ExecutionContext) × (run_workflow o fuel wf ec' w ≡ some (r, ec'', w)))

reads_text :
    (k : Result Value → Workflow) (r : Result Value)
    → ((e : Error) → k (err (message (error_text e))) ≡ k (err e))
    → k (textual r) ≡ k r
reads_text k (ok v) h = refl
reads_text k (err e) h = h e

then-Repeats :
    (o : Outside) (a : Activity) (given : String) (input : Json) (k : Result Value → Workflow)
    (ec : ExecutionContext) (r : Result Value) (ecr : ExecutionContext) (v : World)
    (out : Option Step)
    → ((e : Error) → k (err (message (error_text e))) ≡ k (err e))
    → Executed a (chosen_id o given a ec).0 (chosen_id o given a ec).1 (some (r, ecr, v))
    → Repeats (k r) ecr out
    → Repeats (executes a given input k) ec out
unfolding run_workflow get_cached_result
then-Repeats o a given input k ec r ecr v none reads ex rep = tt
then-Repeats o a given input k ec r ecr v (some (rf, ecf, w)) reads
      ((c, got, answer), grows, t, f, counts, own) (grows', t', own', repeat) =
    (
      (λ i d e. grows' i d (grows i d ((chosen_id-kept o given a ec).0 i ∙ e))),
      t',
      own' ∙ own ∙ (chosen_id-kept o given a ec).1,
      again,
    )
  where
    again :
        (o' : Outside) (fuel : ℕ) (ec' : ExecutionContext) (w' : World)
        → ec.activity_counts ≡ ec'.activity_counts
        → Echoes ecf ec'
        → (ec'' : ExecutionContext) × (run_workflow o' fuel (executes a given input k) ec' w'
            ≡ some (rf, ec'', w'))
    again o' fuel ec' w' same_counts echoes =
        let i : String = (chosen_id o given a ec).0 in
        let i' : String = (chosen_id o' given a ec').0 in
        let e' : ExecutionContext = (chosen_id o' given a ec').1 in
        let chosen = chosen_id-counts o given a ec ec' same_counts in
        let kept = (chosen_id-kept o' given a ec').0 in
        let (d, found, m) = echoes i c (grows' i c got) in
        let found' : get_cached_result i' e' ≡ some d =
          kept i' ∙ subst (λ x. get_cached_result x ec' ≡ some d) chosen.0 found in
        let text : replayed a i' d ≡ textual r =
          subst (λ x. replayed a x d ≡ textual r) chosen.0
            (replayed-Match a i c d m ∙ ap textual (sym answer)) in
        let rest =
          repeat o' fuel (hit e') w' (counts ∙ chosen.1)
            (λ j x e. let (y, g, n) = echoes j x e in (y, kept j ∙ g, n)) in
        (
          rest.0,
          ap (continued o' (λ q. run_workflow o' fuel (k q)))
                (execute-cached o' fuel a given input ec' w' d found')
              ∙ ap (λ x. run_workflow o' fuel x (hit e') w') (ap k text ∙ reads_text k r reads)
              ∙ rest.1,
        )

Tracks-kept :
    (ec ec' : ExecutionContext) (hs : List HistoryEvent)
    → ((i : String) → get_cached_result i ec' ≡ get_cached_result i ec)
    → ec'.instance_id ≡ ec.instance_id
    → Tracks ec hs
    → Tracks ec' hs
Tracks-kept ec ec' hs kept own (track, distinct) = (
  (λ i.
      subst (λ id. Track (get_cached_result i ec') (find (same_activity id i) hs)) (sym own)
        (subst (λ x. Track x (find (same_activity ec.instance_id i) hs)) (sym (kept i)) (track i))),
  distinct,
)

run_workflow-Repeats :
    (o : Outside) (fuel : ℕ) (wf : Workflow) (ec : ExecutionContext) (w : World)
    → Repeatable o wf
    → Tracks ec w.db.history
    → w.faults ≡ []
    → Repeats wf ec (run_workflow o fuel wf ec w)
unfolding run_workflow execute
run_workflow-Repeats o fuel (returns v) ec w p t f =
    ((λ i c e. e), t, refl, (λ o' fuel' ec' w' counts echoes. (ec', refl)))
run_workflow-Repeats o fuel (fails e) ec w p t f =
    ((λ i c e. e), t, refl, (λ o' fuel' ec' w' counts echoes. (ec', refl)))
run_workflow-Repeats o fuel (performs op k) ec w p t f = absurd p
run_workflow-Repeats o fuel (executes a given input k) ec w p t f =
    let kept = chosen_id-kept o given a ec in
    go (λ r ecr v tr fr. run_workflow-Repeats o fuel (k r) ecr v (p.2 r) tr fr)
      (execute o fuel a given input ec w)
      (execute_or_replay-Executed o fuel a input (chosen_id o given a ec).0
        (chosen_id o given a ec).1 w _ p.0 refl
        (Tracks-kept ec (chosen_id o given a ec).1 w.db.history kept.0 kept.1 t) f)
  where
    go :
        (ih : (r : Result Value) (ecr : ExecutionContext) (v : World)
          → Tracks ecr v.db.history
          → v.faults ≡ []
          → Repeats (k r) ecr (run_workflow o fuel (k r) ecr v))
        → (out : Option Step) → Executed a (chosen_id o given a ec).0 (chosen_id o given a ec).1 out
        → Repeats (executes a given input k) ec (continued o (λ r. run_workflow o fuel (k r)) out)
    go ih none ex = tt
    go ih (some (r, ecr, v)) ex =
        then-Repeats o a given input k ec r ecr v _ p.1 ex (ih r ecr v ex.2 ex.3)

-- The loaded context echoes the one that the first run ended with.
loaded-Echoes :
    (ec : ExecutionContext) (hs : List HistoryEvent)
    → Tracks ec hs
    → Echoes ec (new_execution_context ec.instance_id (select (of_instance ec.instance_id) hs))
unfolding new_execution_context get_cached_result
loaded-Echoes ec hs (track, distinct) i c e =
    go (find (same_activity ec.instance_id i) hs) refl
      (subst (λ x. Track x (find (same_activity ec.instance_id i) hs)) e (track i))
  where
    go :
        (o : Option HistoryEvent)
        → find (same_activity ec.instance_id i) hs ≡ o
        → Track (some c) o
        → (d : Reply) × (get_cached_result i
              (new_execution_context ec.instance_id (select (of_instance ec.instance_id) hs))
            ≡ some d)
          × Match c d
    go none f t = absurd t
    go (some h) f (d, reply, m) =
        (d, load_history-find ec.instance_id i hs _ h d distinct refl f reply, m)

-- The second run of a workflow repeats the result of the first and does nothing else.
abbrev pub Replays : Workflow → String → Option Step → Type 0
Replays wf id none = Unit
Replays wf id (some (r, ec, v)) =
    (o : Outside) (fuel : ℕ) (w : World)
    → (ec' : ExecutionContext) × (run_workflow o fuel wf
          (new_execution_context id (select (of_instance id) v.db.history)) w
        ≡ some (r, ec', w))

fresh-Tracks :
    (id : String) (hs : List HistoryEvent)
    → any (of_instance id) hs ≡ false
    → DistinctEvents hs
    → Tracks (new_execution_context id []) hs
unfolding new_execution_context load_history get_cached_result
fresh-Tracks id hs none_yet distinct =
    ((λ i. subst (Track none) (sym (absent hs i none_yet)) tt), distinct)
  where
    absent :
        (hs : List HistoryEvent) (i : String)
        → any (of_instance id) hs ≡ false
        → find (same_activity id i) hs ≡ none
    absent [] i e = refl
    absent (h ∷ hs) i e = ground (arith, absent hs i)

Replays-from :
    (wf : Workflow) (id : String) (out : Option Step)
    → Repeats wf (new_execution_context id []) out
    → Replays wf id out
unfolding new_execution_context load_history
Replays-from wf id none rep = tt
Replays-from wf id (some (r, ec, v)) (grows, t, own, repeat) = λ o fuel w.
    repeat o fuel (new_execution_context id (select (of_instance id) v.db.history)) w
      (sym (load_history-counts (select (of_instance id) v.db.history) _))
      (subst (λ x. Echoes ec (new_execution_context x (select (of_instance x) v.db.history))) own
        (loaded-Echoes ec v.db.history t))

-- Durable execution: a workflow of activities that ran for a new instance, with a driver that did not
-- fail, and is run again with the history that this left, returns the same result; the second run
-- calls no activity, sends no statement and needs no fuel, whatever the activities would answer now.
-- The activities return values of the Go types that JSON decodes into, those in a transaction do not
-- fail, and the workflow looks at no more than the text of their errors.
pub run_workflow-Replays :
    (o : Outside) (fuel : ℕ) (wf : Workflow) (id : String) (w : World)
    → Repeatable o wf
    → w.faults ≡ []
    → any (of_instance id) w.db.history ≡ false
    → DistinctEvents w.db.history
    → Replays wf id (run_workflow o fuel wf (new_execution_context id []) w)
run_workflow-Replays o fuel wf id w p f none_yet distinct = Replays-from wf id _ (
    run_workflow-Repeats o fuel wf (new_execution_context id []) w p
      (fresh-Tracks id w.db.history none_yet distinct) f)
