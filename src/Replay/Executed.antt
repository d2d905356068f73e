-- ===== src/Replay/Executed.antt =====
-- The cache and the history after `Execute` of an activity (activity.go), where the SQL driver does
-- not fail.
use romancy.Base.{
  String, ℕ, ◌≡◌, refl, sym, ap, ◌∙◌, subst, Bool, true, false, Option, none, some, [], ◌≟◌, suc,
  same, arith, if◌then◌else◌,
}
use romancy.Json.{Json, str, Value, encodable, unencodable}
use romancy.Errors.{Error, Result, ok, err, message, error_text}
use romancy.Storage.Models.{
  Db, HistoryEvent, activity_completed, activity_failed, CompensationEntry,
}
use romancy.Storage.World.{World, Outside, seconds, ◌>>=◌, now, now_ms, exec_}
use romancy.Storage.World.Keeps.{statement_done}
use romancy.Storage.History.{append_history, add_new_event}
use romancy.Storage.Compensations.{add_compensation}
use romancy.Activity.{
  compensation_entry, ended, ended_in_transaction, committed, begun, typed_or_mismatch, assert_type,
  Activity, ExecutionContext, held, decoded, Reply, result, failure, Step, dynamic_type,
  get_cached_result, set_cached_result, record_activity_result, activity_event,
  register_compensation, replayed, execute_with_retry, finish, finish_in_transaction, finished_by,
  execute_in_transaction, execute_without_transaction, execute_or_replay,
}
use romancy.Replay.Recorded.{
  Plain, Replayable, Tried, execute_with_retry-Tried, Tracks, Grows, set-Grows, get_cached-set,
  add_new-Tracks,
}

pub append_history_done :
    (e : HistoryEvent) (w : World)
    → w.faults ≡ []
    → append_history e w ≡ (ok tt, record w { db = add_new_event (seconds w) e w.db; faults = [] })
unfolding append_history ◌>>=◌ now exec_
append_history_done e w f = statement_done _ w f

add_compensation_done :
    (entry : CompensationEntry) (w : World)
    → w.faults ≡ []
    → ((add_compensation entry w).1.db.history ≡ w.db.history)
      × ((add_compensation entry w).1.faults ≡ [])
unfolding add_compensation ◌>>=◌ now_ms exec_
add_compensation_done entry w f = rw (statement_done _ w f) (refl, refl)

registered :
    (instance_id i : String) (a : Activity) (input : Json) (w : World)
    → w.faults ≡ []
    → ((register_compensation instance_id i a input w).db.history ≡ w.db.history)
      × ((register_compensation instance_id i a input w).faults ≡ [])
unfolding register_compensation
registered instance_id i a input w f =
    go (compensation_entry instance_id i a input) a.has_compensation
  where
    go :
        (e : CompensationEntry) (b : Bool)
        → let v : World = if b then (add_compensation e w).1 else w in
          (v.db.history ≡ w.db.history) × (v.faults ≡ [])
    go e true = add_compensation_done e w f
    go e false = (refl, f)

same_refl : (s : String) → s ≟ s ≡ true
same_refl s = ground arith

-- What is known after an activity has run or was answered from the cache.
abbrev pub Executed : Activity → String → ExecutionContext → Option Step → Type 0
Executed a i ec none = Unit
Executed a i ec (some (r, ec', v)) =
    ((c : Reply) × (get_cached_result i ec' ≡ some c) × (r ≡ replayed a i c))
    × Grows ec ec'
    × Tracks ec' v.db.history
    × (v.faults ≡ [])
    × (ec'.activity_counts ≡ ec.activity_counts)
    × (ec'.instance_id ≡ ec.instance_id)

-- The cache and the history after a result was noted.
noted_ok :
    (i : String) (a : Activity) (j : Json) (ec : ExecutionContext) (d : Db) (t : ℕ)
    → dynamic_type j ≡ some a.output_type
    → get_cached_result i ec ≡ none
    → Tracks ec d.history
    → Tracks
        (set_cached_result i (result (held a.output_type (encodable j))) ec)
        (add_new_event t (activity_event ec.instance_id i activity_completed j) d).history
unfolding same
noted_ok i a j ec d t p fresh k =
    add_new-Tracks i _ (result (decoded j)) ec d t
      (activity_event ec.instance_id i activity_completed j) refl refl refl (refl, p) fresh k

noted_err :
    (i : String) (e : Error) (ec : ExecutionContext) (d : Db) (t : ℕ)
    → get_cached_result i ec ≡ none
    → Tracks ec d.history
    → Tracks
        (set_cached_result i (failure e) ec)
        (add_new_event t
          (activity_event ec.instance_id i activity_failed (str (error_text e)))
          d).history
noted_err i e ec d t fresh k =
    add_new-Tracks i _ (failure (message (error_text e))) ec d t
      (activity_event ec.instance_id i activity_failed (str (error_text e))) refl refl refl refl
      fresh k

one_more : ExecutionContext → ExecutionContext
one_more ec = record ec { new_activities = suc ec.new_activities }

replayed_held :
    (a : Activity) (i : String) (v : Value) → replayed a i (result (held a.output_type v)) ≡ ok v
unfolding replayed
replayed_held a i v = ap (typed_or_mismatch i) (if_same a.output_type v)
  where
    if_same : (t : String) (v : Value) → assert_type t (held t v) ≡ some v
    if_same t v = rw (same_refl t) refl

-- The steps that end an execution whose result could be noted.
ok-Executed :
    (i : String) (a : Activity) (j : Json) (ec : ExecutionContext) (v : World)
    → get_cached_result i ec ≡ none
    → Tracks
        (set_cached_result i (result (held a.output_type (encodable j))) (one_more ec))
        v.db.history
    → v.faults ≡ []
    → Executed a i ec (
        some (
          ok (encodable j),
          set_cached_result i (result (held a.output_type (encodable j))) (one_more ec),
          v,
        ))
unfolding set_cached_result get_cached_result replayed one_more
ok-Executed i a j ec v fresh k f = (
  (
    _,
    get_cached-set i (result (held a.output_type (encodable j))) (one_more ec) fresh,
    sym (replayed_held a i (encodable j)),
  ),
  set-Grows i (result (held a.output_type (encodable j))) (one_more ec) fresh,
  k,
  f,
  refl,
  refl,
)

err-Executed :
    (i : String) (a : Activity) (e : Error) (ec : ExecutionContext) (v : World)
    → get_cached_result i ec ≡ none
    → Tracks (set_cached_result i (failure e) (one_more ec)) v.db.history
    → v.faults ≡ []
    → Executed a i ec (some (err e, set_cached_result i (failure e) (one_more ec), v))
unfolding set_cached_result get_cached_result replayed one_more
err-Executed i a e ec v fresh k f = (
  (_, get_cached-set i (failure e) (one_more ec) fresh, refl),
  set-Grows i (failure e) (one_more ec) fresh,
  k,
  f,
  refl,
  refl,
)

noted_world : HistoryEvent → World → World
noted_world e w = record w { db = add_new_event (seconds w) e w.db; faults = [] }

finish-Executed :
    (o : Outside) (a : Activity) (input : Json) (i : String) (ec : ExecutionContext)
    (r : Result Value) (w : World)
    → Plain a r
    → get_cached_result i ec ≡ none
    → Tracks ec w.db.history
    → w.faults ≡ []
    → Executed a i ec (some (finish o a input i ec r w))
unfolding finish record_activity_result get_cached_result one_more noted_world
finish-Executed o a input i ec (ok unencodable) w p fresh k f = absurd p
finish-Executed o a input i ec (err e) w p fresh k f =
    subst (λ out. Executed a i ec (some (ended o a input i ec (err e) out)))
      (sym (append_history_done _ w f))
      (err-Executed i a e ec
        (noted_world (activity_event ec.instance_id i activity_failed (str (error_text e))) w) fresh
        (noted_err i e (one_more ec) w.db (seconds w) fresh k) refl)
finish-Executed o a input i ec (ok (encodable j)) w p fresh k f =
    let v : World = noted_world (activity_event ec.instance_id i activity_completed j) w in
    let done = registered ec.instance_id i a input v refl in
    subst (λ out. Executed a i ec (some (ended o a input i ec (ok (encodable j)) out)))
      (sym (append_history_done _ w f))
      (ok-Executed i a j ec (register_compensation ec.instance_id i a input v) fresh
        (subst
          (Tracks (set_cached_result i (result (held a.output_type (encodable j))) (one_more ec)))
          (sym done.0) (noted_ok i a j (one_more ec) w.db (seconds w) p fresh k))
        done.1)

finish_in_transaction-Executed :
    (o : Outside) (saved : Db) (a : Activity) (input : Json) (i : String) (ec : ExecutionContext)
    (r : Result Value) (w : World)
    → a.transactional ≡ true
    → Plain a r
    → get_cached_result i ec ≡ none
    → Tracks ec w.db.history
    → w.faults ≡ []
    → Executed a i ec (some (finish_in_transaction o saved a input i ec r w))
unfolding finish_in_transaction record_activity_result get_cached_result one_more noted_world
finish_in_transaction-Executed o saved a input i ec (ok unencodable) w t p fresh k f = absurd p
finish_in_transaction-Executed o saved a input i ec (err e) w t p fresh k f = absurd (ground arith)
finish_in_transaction-Executed o saved a input i ec (ok (encodable j)) w t p fresh k f =
    let v : World = noted_world (activity_event ec.instance_id i activity_completed j) w in
    let done = registered ec.instance_id i a input v refl in
    let ec' : ExecutionContext =
      set_cached_result i (result (held a.output_type (encodable j))) (one_more ec) in
    subst
      (λ out.
        Executed a i ec (some (ended_in_transaction o saved a input i ec (ok (encodable j)) out)))
      (sym (append_history_done _ w f))
      (subst (λ out. Executed a i ec (some (committed o saved (encodable j) ec' out)))
        (sym (statement_done _ (register_compensation ec.instance_id i a input v) done.1))
        (ok-Executed i a j ec
          (record (register_compensation ec.instance_id i a input v) { faults = [] }) fresh
          (subst (Tracks ec') (sym done.0)
            (noted_ok i a j (one_more ec) w.db (seconds w) p fresh k))
          refl))

finished_by-Executed :
    (o : Outside) (a : Activity) (i : String) (ec : ExecutionContext) (w : World)
    (f : Result Value → World → Step) (out : Option (Result Value × World))
    → Tried a w out
    → ((r : Result Value) (v : World)
        → v.db ≡ w.db
        → v.faults ≡ w.faults
        → Plain a r
        → Executed a i ec (some (f r v)))
    → Executed a i ec (finished_by o f out)
finished_by-Executed o a i ec w f none t h = tt
finished_by-Executed o a i ec w f (some (r, v)) t h =
    h r v (ap (λ u. u.db) t.0) (ap (λ u. u.faults) t.0) t.1

execute_in_transaction-Executed :
    (o : Outside) (fuel : ℕ) (a : Activity) (input : Json) (i : String) (ec : ExecutionContext)
    (w : World)
    → a.transactional ≡ true
    → Replayable o a
    → get_cached_result i ec ≡ none
    → Tracks ec w.db.history
    → w.faults ≡ []
    → Executed a i ec (execute_in_transaction o fuel a input i ec w)
unfolding execute_in_transaction
execute_in_transaction-Executed o fuel a input i ec w t p fresh k f =
    let v : World = record w { faults = [] } in
    subst (λ out. Executed a i ec (begun o fuel a input i ec out)) (sym (statement_done _ w f))
      (finished_by-Executed o a i ec v (finish_in_transaction o v.db a input i ec)
        (execute_with_retry o fuel a input 0 v)
        (execute_with_retry-Tried o fuel a input 0 v v p refl)
        (λ r u d g q.
          finish_in_transaction-Executed o v.db a input i ec r u t q fresh
            (subst (λ x. Tracks ec x.history) (sym d) k) g))

execute_without_transaction-Executed :
    (o : Outside) (fuel : ℕ) (a : Activity) (input : Json) (i : String) (ec : ExecutionContext)
    (w : World)
    → Replayable o a
    → get_cached_result i ec ≡ none
    → Tracks ec w.db.history
    → w.faults ≡ []
    → Executed a i ec (execute_without_transaction o fuel a input i ec w)
unfolding execute_without_transaction
execute_without_transaction-Executed o fuel a input i ec w p fresh k f =
    finished_by-Executed o a i ec w (finish o a input i ec) (execute_with_retry o fuel a input 0 w)
      (execute_with_retry-Tried o fuel a input 0 w w p refl)
      (λ r u d g q.
        finish-Executed o a input i ec r u q fresh (subst (λ x. Tracks ec x.history) (sym d) k)
          (g ∙ f))

pub execute_or_replay-Executed :
    (o : Outside) (fuel : ℕ) (a : Activity) (input : Json) (i : String) (ec : ExecutionContext)
    (w : World) (reply : Option Reply)
    → Replayable o a
    → get_cached_result i ec ≡ reply
    → Tracks ec w.db.history
    → w.faults ≡ []
    → Executed a i ec (execute_or_replay o fuel a input i ec w reply)
unfolding get_cached_result
execute_or_replay-Executed o fuel a input i ec w (some c) p e k f =
    ((c, e, refl), (λ j d x. x), k, f, refl, refl)
execute_or_replay-Executed o fuel a input i ec w none p e k f = go a.transactional refl
  where
    go :
        (t : Bool)
        → a.transactional ≡ t
        → Executed a i ec (
            if t
            then execute_in_transaction o fuel a input i ec w
            else execute_without_transaction o fuel a input i ec w)
    go true t = execute_in_transaction-Executed o fuel a input i ec w t p e k f
    go false t = execute_without_transaction-Executed o fuel a input i ec w p e k f
