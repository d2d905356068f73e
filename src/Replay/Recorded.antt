-- ===== src/Replay/Recorded.antt =====
-- What the execution of an activity leaves in the cache and in the history (activity.go,
-- context.go, internal/replay/engine.go), where the SQL driver does not fail.
use romancy.Base.{
  String, ℕ, ◌≡◌, refl, ap, ◌∙◌, subst, Bool, true, false, Option, none, some, List, [], ◌∷◌, ◌++◌,
  ◌≟◌, zero, suc, not, any, find, find-none-append, find-none-any, find-miss-append, same, length,
  arith, if◌then◌else◌,
}
use romancy.Json.{Json, Value, encodable, unencodable, text_of}
use romancy.Errors.{Error, Result, ok, err, message, error_text, is_terminal_error}
use romancy.Storage.Models.{
  Db, HistoryEvent, activity_completed, activity_failed, channel_message_received, message_timeout,
}
use romancy.Storage.World.{World, Call, Outside, called}
use romancy.Storage.History.{add_new_event, same_activity}
use romancy.Storage.History.Numbered.{DistinctEvents, append-DistinctEvents}
use romancy.Activity.{
  Activity, ExecutionContext, held, decoded, Reply, result, failure, dynamic_type,
  get_cached_result, set_cached_result, judged, perform_activity, execute_with_retry, should_retry,
  policy_of,
}

-- What an activity may answer: a result of a Go type that JSON decodes into, or, outside a
-- transaction, an error.
abbrev pub Plain : Activity → Result Value → Type 0
Plain a (ok (encodable j)) = dynamic_type j ≡ some a.output_type
Plain a (ok unencodable) = ⊥
Plain a (err e) = a.transactional ≡ false

abbrev pub Replayable : Outside → Activity → Type 0
Replayable o a = (input : Json) (n : ℕ) → Plain a (o.perform a.name input n)

-- The attempts touch the record of the calls alone.
abbrev pub Tried : Activity → World → Option (Result Value × World) → Type 0
Tried a w none = Unit
Tried a w (some (r, v)) = (v ≡ record w { calls = v.calls }) × Plain a r

judged-Tried :
    (o : Outside) (again : World → Option (Result Value × World)) (a : Activity) (n : ℕ)
    (r : Result Value) (w v : World)
    → Plain a r
    → v ≡ record w { calls = v.calls }
    → ((u : World) → u ≡ record w { calls = u.calls } → Tried a w (again u))
    → Tried a w (judged o again a n (r, v))
judged-Tried o again a n (ok x) w v p e ih = (e, p)
judged-Tried o again a n (err x) w v p e ih =
    go (is_terminal_error x) (not (should_retry (policy_of a) n x)) (o.interrupts (length v.calls))
  where
    go :
        (b c i : Bool)
        → Tried a w (
            if b
            then some (err x, v)
            else if c
            then some (err (Error.retry_exhausted a.name n x), v)
            else if i
            then some (err Error.cancelled, v)
            else again v)
    go true c i = (e, p)
    go false true i = (e, p)
    go false false true = (e, p)
    go false false false = ih v e

pub execute_with_retry-Tried :
    (o : Outside) (fuel : ℕ) (a : Activity) (input : Json) (n : ℕ) (w v : World)
    → Replayable o a
    → v ≡ record w { calls = v.calls }
    → Tried a w (execute_with_retry o fuel a input n v)
unfolding execute_with_retry perform_activity called
execute_with_retry-Tried o zero a input n w v p e = tt
execute_with_retry-Tried o (suc fuel) a input n w v p e =
    let called_once : World → World =
      λ u. record u { calls = Call.activity a.name input ∷ v.calls } in
    judged-Tried o (execute_with_retry o fuel a input (suc n)) a (suc n)
      (o.perform a.name input (length v.calls)) w
      (record v { calls = Call.activity a.name input ∷ v.calls }) (p input (length v.calls))
      (ap called_once e) (λ u eu. execute_with_retry-Tried o fuel a input (suc n) w u p eu)

-- The reply that the engine makes of an event when it loads the history.
abbrev pub event_reply : HistoryEvent → Option Reply
event_reply h = elim h.event_type [
  | activity_completed ↦ if h.data_type ≟ "json" then some (result (decoded h.event_data)) else none
  | channel_message_received ↦
      if h.data_type ≟ "json" then some (result (decoded h.event_data)) else none
  | activity_failed ↦ some (failure (message (text_of h.event_data)))
  | message_timeout ↦ some (failure (message (text_of h.event_data)))
  | _ ↦ none
]

-- A reply, and the same reply as it is read back: of an error only the text is left.
abbrev pub Match : Reply → Reply → Type 0
Match (result (held t (encodable j))) (result (decoded k)) = (k ≡ j) × (dynamic_type j ≡ some t)
Match (result (decoded j)) (result (decoded k)) = k ≡ j
Match (failure e) (failure f) = f ≡ message (error_text e)
Match _ _ = ⊥

-- The cache holds a reply exactly where the history holds an event, and they match.
abbrev pub Track : Option Reply → Option HistoryEvent → Type 0
Track none none = Unit
Track (some c) (some h) = (c' : Reply) × (event_reply h ≡ some c') × Match c c'
Track _ _ = ⊥

abbrev pub Tracks : ExecutionContext → List HistoryEvent → Type 0
Tracks ec hs =
    ((i : String) → Track (get_cached_result i ec) (find (same_activity ec.instance_id i) hs))
    × DistinctEvents hs

-- What is cached stays.
abbrev pub Grows : ExecutionContext → ExecutionContext → Type 0
Grows ec ec' =
    (i : String) (c : Reply) → get_cached_result i ec ≡ some c → get_cached_result i ec' ≡ some c

pub get_cached-set :
    (i : String) (c : Reply) (ec : ExecutionContext)
    → get_cached_result i ec ≡ none
    → get_cached_result i (set_cached_result i c ec) ≡ some c
unfolding get_cached_result set_cached_result
get_cached-set i (result c) ec e = ground (arith)
get_cached-set i (failure x) ec e = ground (arith)

get_cached-set_other :
    (i k : String) (c : Reply) (ec : ExecutionContext)
    → (i ≡ k → ⊥)
    → get_cached_result k (set_cached_result i c ec) ≡ get_cached_result k ec
unfolding get_cached_result set_cached_result
get_cached-set_other i k (result c) ec e = ground (arith)
get_cached-set_other i k (failure x) ec e = ground (arith)

Track-none : (o : Option Reply) (h : Option HistoryEvent) → o ≡ none → Track o h → h ≡ none
Track-none none none e t = refl
Track-none none (some h) e t = absurd t
Track-none (some c) h e t = cc

pub set-Grows :
    (i : String) (c : Reply) (ec : ExecutionContext)
    → get_cached_result i ec ≡ none
    → Grows ec (set_cached_result i c ec)
set-Grows i c ec fresh k d e = elim (same i k) [
  | yes s ↦ cc (subst (λ x. get_cached_result x ec ≡ none) s fresh)
  | no ne ↦ get_cached-set_other i k c ec ne ∙ e
]

pub add_new-fresh :
    (t : ℕ) (e : HistoryEvent) (d : Db)
    → any (same_activity e.instance_id e.activity_id) d.history ≡ false
    → (add_new_event t e d).history
      ≡ d.history ++ record e { id = d.next_history_id; created_at = t } ∷ []
add_new-fresh t e d f = ground arith

tracked_at :
    (i k : String) (c : Reply) (ec : ExecutionContext) (hs : List HistoryEvent) (e : HistoryEvent)
    (c' : Reply)
    → e.instance_id ≡ ec.instance_id
    → e.activity_id ≡ i
    → event_reply e ≡ some c'
    → Match c c'
    → get_cached_result i ec ≡ none
    → find (same_activity ec.instance_id i) hs ≡ none
    → Track (get_cached_result k ec) (find (same_activity ec.instance_id k) hs)
    → Track
        (get_cached_result k (set_cached_result i c ec))
        (find (same_activity ec.instance_id k) (hs ++ e ∷ []))
tracked_at i k c ec hs e c' own named reply m fresh absent track = elim (same i k) [
  | yes s ↦
      subst
        (λ x.
          Track (get_cached_result x (set_cached_result i c ec))
            (find (same_activity ec.instance_id x) (hs ++ e ∷ [])))
        s here
  | no ne ↦
      rw
        (
          get_cached-set_other i k c ec ne,
          find-miss-append (same_activity ec.instance_id k) hs e (ground (arith, ne)),
        )
        track
]
  where
    found : find (same_activity ec.instance_id i) (hs ++ e ∷ []) ≡ some e
    found = find-none-append (same_activity ec.instance_id i) hs (e ∷ []) absent ∙ ground arith

    here :
        Track
          (get_cached_result i (set_cached_result i c ec))
          (find (same_activity ec.instance_id i) (hs ++ e ∷ []))
    here = rw (get_cached-set i c ec fresh, found) (c', reply, m)

set_cached-instance_id :
    (i : String) (c : Reply) (ec : ExecutionContext)
    → (set_cached_result i c ec).instance_id ≡ ec.instance_id
unfolding set_cached_result
set_cached-instance_id i (result c) ec = refl
set_cached-instance_id i (failure e) ec = refl

-- One event more in the history, and its reply in the cache.
pub add_new-Tracks :
    (i : String) (c c' : Reply) (ec : ExecutionContext) (d : Db) (t : ℕ) (e : HistoryEvent)
    → e.instance_id ≡ ec.instance_id
    → e.activity_id ≡ i
    → event_reply (record e { id = d.next_history_id; created_at = t }) ≡ some c'
    → Match c c'
    → get_cached_result i ec ≡ none
    → Tracks ec d.history
    → Tracks (set_cached_result i c ec) (add_new_event t e d).history
unfolding set_cached_result
add_new-Tracks i c c' ec d t e own named reply m fresh (track, distinct) =
    let absent : find (same_activity ec.instance_id i) d.history ≡ none =
      Track-none _ _ fresh (track i) in
    let none_yet : any (same_activity e.instance_id e.activity_id) d.history ≡ false =
      rw (own, named) (find-none-any _ d.history absent) in
    rw (set_cached-instance_id i c ec, add_new-fresh t e d none_yet)
      (
        (λ k. tracked_at i k c ec d.history _ c' own named reply m fresh absent (track k)),
        append-DistinctEvents d.history _ none_yet distinct,
      )
