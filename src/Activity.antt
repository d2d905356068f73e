-- ===== src/Activity.antt =====
-- activity.go: the execution of an activity, with retries (retry/policy.go) and with or without a
-- transaction; and the execution context of internal/replay/engine.go and context.go, which holds
-- the replay caches. Delays between attempts, timeouts and hooks are left out.
pub mod Attempts
use romancy.Base.{
  String, ◌<>◌, ℕ, ◌+◌, Bool, true, false, Option, none, some, List, [], ◌∷◌, ltb, leb, ◌≟◌, ◌&&◌,
  not, zero, suc, itoa, length, any, ite, same, if◌then◌else◌,
}
use romancy.Json.{Json, null, bool, num, str, arr, obj, Value, encodable, unencodable, marshal}
use romancy.Errors.{
  Error, Result, ok, err, wrap, message, retry_exhausted, cancelled, is_terminal_error, error_text,
}
use romancy.Storage.Models.{
  Db, HistoryEvent, HistoryEventType, activity_completed, activity_failed, CompensationEntry,
}
use romancy.Storage.History.{append_history}
use romancy.Storage.Compensations.{add_compensation}
use romancy.Storage.World.{World, M, Call, activity, Outside, raise, ignore, called, statement}

-- `Policy`: what `errors.Is` says of an error for each of the errors that are not retried. The
-- fields on delays are left out.
pub record Policy : Type 0 where
  pub max_attempts : ℕ
  pub non_retryable_errors : List (Error → Bool)

unfoldable pub should_retry : Policy → ℕ → Error → Bool
should_retry p attempts e =
    if ltb 0 p.max_attempts && leb p.max_attempts attempts
    then false
    else not (any (λ is. is e) p.non_retryable_errors)

abbrev pub default_policy : Policy
default_policy = record { max_attempts = 3; non_retryable_errors = [] }

-- `output_type` names the Go type of the result, which is no interface.
pub record Activity : Type 0 where
  pub name : String
  pub retry_policy : Option Policy
  pub transactional : Bool
  pub has_compensation : Bool
  pub output_type : String

abbrev pub policy_of : Activity → Policy
policy_of a = elim a.retry_policy [ none ↦ default_policy | some p ↦ p ]

-- What the cache holds: the result of an activity that ran here, or a value that was decoded from
-- the history.
pub data Cached : Type 0 where
  held : (go_type : String) → Value → Cached
  decoded : Json → Cached

pub data Reply : Type 0 where
  result : Cached → Reply
  failure : Error → Reply

-- The type of what `json.Unmarshal` puts into an `any`; nil has none.
abbrev pub dynamic_type : Json → Option String
dynamic_type null = none
dynamic_type (bool b) = some "bool"
dynamic_type (num n) = some "float64"
dynamic_type (str s) = some "string"
dynamic_type (arr items) = some "[]interface {}"
dynamic_type (obj fields) = some "map[string]interface {}"

abbrev pub has_type : String → Option String → Bool
has_type go_type none = false
has_type go_type (some t) = t ≟ go_type

-- The maps of the context are functions of the key.
pub record ExecutionContext : Type 0 where
  pub instance_id : String
  pub is_replaying : Bool
  pub activity_counts : String → ℕ
  pub cached_results : String → Option Cached
  pub cached_errors : String → Option Error
  pub cache_hits : ℕ
  pub new_activities : ℕ
  -- the channels that were subscribed in direct mode
  pub direct_subscriptions : String → Bool

abbrev pub put {ℓ} : {A : Type ℓ} → String → A → (String → A) → String → A
put key v m k = ite (same key k) v (m k)

-- `GenerateActivityID`
unfoldable pub generate_activity_id : String → ExecutionContext → String × ExecutionContext
generate_activity_id function_name ec =
    let n : ℕ = suc (ec.activity_counts function_name) in
    (
      function_name <> (":" <> itoa n),
      record ec { activity_counts = put function_name n ec.activity_counts },
    )

abbrev pub reply_of : Option Cached → Option Error → Option Reply
reply_of (some c) e = some (result c)
reply_of none (some e) = some (failure e)
reply_of none none = none

-- `GetCachedResult`, apart from its count of the hits
unfoldable pub get_cached_result : String → ExecutionContext → Option Reply
get_cached_result activity_id ec =
    reply_of (ec.cached_results activity_id) (ec.cached_errors activity_id)

abbrev pub hit : ExecutionContext → ExecutionContext
hit ec = record ec { cache_hits = suc ec.cache_hits }

-- `SetCachedResult`
unfoldable pub set_cached_result : String → Reply → ExecutionContext → ExecutionContext
set_cached_result activity_id (result c) ec = record ec {
  cached_results = put activity_id (some c) ec.cached_results;
}
set_cached_result activity_id (failure e) ec = record ec {
  cached_errors = put activity_id (some e) ec.cached_errors;
}

abbrev pub activity_event : String → String → HistoryEventType → Json → HistoryEvent
activity_event instance_id activity_id event_type event_data = record {
  id = 0;
  instance_id = instance_id;
  activity_id = activity_id;
  event_type = event_type;
  event_data = event_data;
  data_type = "json";
  created_at = 0;
}

-- `RecordActivityResult` of the engine
unfoldable pub record_activity_result : String → String → Result Value → M (Unit {0})
record_activity_result instance_id activity_id (err e) =
    append_history (activity_event instance_id activity_id activity_failed (str (error_text e)))
record_activity_result instance_id activity_id (ok v) = elim (marshal v) [
  | none ↦ raise (wrap "failed to serialize result" (message "json: unsupported type"))
  | some j ↦ append_history (activity_event instance_id activity_id activity_completed j)
]

abbrev pub reply_to : Activity → Result Value → Reply
reply_to a (ok v) = result (held a.output_type v)
reply_to a (err e) = failure e

abbrev pub Step : Type 0
Step = Result Value × ExecutionContext × World

-- `RecordActivityResult` of the workflow context: the cache is set where the record is kept.
abbrev pub noted_in : String → Reply → ExecutionContext → Result (Unit {0}) → ExecutionContext
noted_in activity_id r ec (ok _) =
    set_cached_result activity_id r (record ec { new_activities = suc ec.new_activities })
noted_in activity_id r ec (err e) = record ec { new_activities = suc ec.new_activities }

abbrev pub compensation_entry : String → String → Activity → Json → CompensationEntry
compensation_entry instance_id activity_id a input = record {
  id = 0;
  instance_id = instance_id;
  activity_id = activity_id;
  activity_name = a.name;
  args = input;
  created_at = 0;
}

-- `registerCompensation`, whose error is only logged. The input is one that has an encoding.
unfoldable pub register_compensation : String → String → Activity → Json → World → World
unfolding add_compensation
register_compensation instance_id activity_id a input w =
    if a.has_compensation
    then (add_compensation (compensation_entry instance_id activity_id a input) w).1
    else w

-- The type assertion `result.(O)`.
abbrev pub assert_type : String → Cached → Option Value
assert_type go_type (held t v) = if t ≟ go_type then some v else none
assert_type go_type (decoded j) =
    if has_type go_type (dynamic_type j) then some (encodable j) else none

abbrev pub typed_or_mismatch : String → Option Value → Result Value
typed_or_mismatch activity_id (some v) = ok v
typed_or_mismatch activity_id none =
    err (message ("cached result type mismatch for activity " <> activity_id))

-- What `Execute` returns for a cached reply.
unfoldable pub replayed : Activity → String → Reply → Result Value
replayed a activity_id (failure e) = err e
replayed a activity_id (result c) = typed_or_mismatch activity_id (assert_type a.output_type c)

module _ (o : Outside) where
  -- What the loop makes of an attempt, the `attempts`-th.
  abbrev pub judged :
      (World → Option (Result Value × World))
      → Activity
      → ℕ
      → Result Value × World
      → Option (Result Value × World)
  judged again a attempts (ok v, w) = some (ok v, w)
  judged again a attempts (err e, w) =
      if is_terminal_error e
      then some (err e, w)
      else if not (should_retry (policy_of a) attempts e)
      then some (err (retry_exhausted a.name attempts e), w)
      else if o.interrupts (length w.calls)
      then some (err cancelled, w)
      else again w

  unfoldable pub perform_activity : Activity → Json → World → Result Value × World
  perform_activity a input = called (activity a.name input) (o.perform a.name input)

  -- `executeWithRetry` from the attempt after the given number of them; `none` means that the fuel
  -- ran out.
  unfoldable pub execute_with_retry :
      ℕ → Activity → Json → ℕ → World → Option (Result Value × World)
  execute_with_retry zero a input attempts w = none
  execute_with_retry (suc fuel) a input attempts w =
      judged (execute_with_retry fuel a input (suc attempts)) a (suc attempts)
        (perform_activity a input w)

  -- `executeWithoutTransaction`, once the result was noted, or could not be.
  abbrev pub ended :
      Activity → Json → String → ExecutionContext → Result Value → Result (Unit {0}) × World → Step
  ended a input activity_id ec r (err e, w) = (
    err (wrap "failed to record activity result" e),
    noted_in activity_id (reply_to a r) ec (err e),
    w,
  )
  ended a input activity_id ec (err e) (ok _, w) =
      (err e, noted_in activity_id (failure e) ec (ok tt), w)
  ended a input activity_id ec (ok x) (ok _, w) = (
    ok x,
    noted_in activity_id (reply_to a (ok x)) ec (ok tt),
    register_compensation ec.instance_id activity_id a input w,
  )

  unfoldable pub finish : Activity → Json → String → ExecutionContext → Result Value → World → Step
  unfolding record_activity_result
  finish a input activity_id ec r w =
      ended a input activity_id ec r (record_activity_result ec.instance_id activity_id r w)

  -- `RollbackTransaction`, whose error is dropped: what the transaction wrote is gone in any case.
  abbrev pub rollback : Db → World → World
  rollback saved w = record ((statement (λ d. (Result.ok tt, d)) w).1) { db = saved }

  -- `CommitTransaction`; a commit that fails keeps nothing.
  abbrev pub committed : Db → Value → ExecutionContext → Result (Unit {0}) × World → Step
  committed saved x ec (ok _, w) = (ok x, ec, w)
  committed saved x ec (err e, w) =
      (err (wrap "failed to commit transaction" e), ec, record w { db = saved })

  abbrev pub commit : Db → Value → ExecutionContext → World → Step
  commit saved x ec w = committed saved x ec (statement (λ d. (ok tt, d)) w)

  -- `executeInTransaction`, once the result was noted, or could not be.
  abbrev pub ended_in_transaction :
      Db
      → Activity
      → Json
      → String
      → ExecutionContext
      → Result Value
      → Result (Unit {0}) × World
      → Step
  ended_in_transaction saved a input activity_id ec r (err e, w) = (
    err (wrap "failed to record activity result" e),
    noted_in activity_id (reply_to a r) ec (err e),
    rollback saved w,
  )
  ended_in_transaction saved a input activity_id ec (err e) (ok _, w) =
      (err e, noted_in activity_id (failure e) ec (ok tt), rollback saved w)
  ended_in_transaction saved a input activity_id ec (ok x) (ok _, w) =
      commit saved x (noted_in activity_id (reply_to a (ok x)) ec (ok tt))
        (register_compensation ec.instance_id activity_id a input w)

  unfoldable pub finish_in_transaction :
      Db → Activity → Json → String → ExecutionContext → Result Value → World → Step
  unfolding record_activity_result
  finish_in_transaction saved a input activity_id ec r w =
      ended_in_transaction saved a input activity_id ec r
        (record_activity_result ec.instance_id activity_id r w)

  abbrev pub finished_by :
      (Result Value → World → Step) → Option (Result Value × World) → Option Step
  finished_by f none = none
  finished_by f (some (r, w)) = some (f r w)

  unfoldable pub execute_without_transaction :
      ℕ → Activity → Json → String → ExecutionContext → World → Option Step
  execute_without_transaction fuel a input activity_id ec w =
      finished_by (finish a input activity_id ec) (execute_with_retry fuel a input 0 w)

  abbrev pub begun :
      ℕ → Activity → Json → String → ExecutionContext → Result (Unit {0}) × World → Option Step
  begun fuel a input activity_id ec (err e, w) =
      some (err (wrap "failed to begin transaction" e), ec, w)
  begun fuel a input activity_id ec (ok _, w) =
      finished_by (finish_in_transaction w.db a input activity_id ec)
        (execute_with_retry fuel a input 0 w)

  unfoldable pub execute_in_transaction :
      ℕ → Activity → Json → String → ExecutionContext → World → Option Step
  execute_in_transaction fuel a input activity_id ec w =
      begun fuel a input activity_id ec (statement (λ d. (ok tt, d)) w)

  -- `Execute` after the search in the cache. A context of the engine always has a storage.
  abbrev pub execute_or_replay :
      ℕ → Activity → Json → String → ExecutionContext → World → Option Reply → Option Step
  execute_or_replay fuel a input activity_id ec w (some r) =
      some (replayed a activity_id r, hit ec, w)
  execute_or_replay fuel a input activity_id ec w none =
      if a.transactional
      then execute_in_transaction fuel a input activity_id ec w
      else execute_without_transaction fuel a input activity_id ec w

  -- The given id, or a generated one where it is empty.
  abbrev pub chosen_id : String → Activity → ExecutionContext → String × ExecutionContext
  chosen_id given a ec = ite (same given "") (generate_activity_id a.name ec) (given, ec)

  unfoldable pub execute : ℕ → Activity → String → Json → ExecutionContext → World → Option Step
  execute fuel a given input ec w =
      let (activity_id, ec') = chosen_id given a ec in
      execute_or_replay fuel a input activity_id ec' w (get_cached_result activity_id ec')
