-- ===== src/Replay/Answered.antt =====
-- What the engine has in its caches when a workflow is run again (internal/replay/engine.go), and
-- what `Receive` (channels.go) makes of it.
use romancy.Base.{
  String, ◌<>◌, ℕ, ◌≡◌, refl, sym, subst, ap, ◌∙◌, suc, Bool, true, false, Option, some, List, [],
  ◌∷◌, ◌++◌, any, find, select, arith,
}
use romancy.Storage.Models.{Db, HistoryEvent}
use romancy.Storage.World.{World}
use romancy.Storage.History.{of_instance, same_activity, add_new_event}
use romancy.Storage.History.Numbered.{DistinctEvents, append-DistinctEvents}
use romancy.Activity.{ExecutionContext, Reply, generate_activity_id, get_cached_result, hit}
use romancy.Operations.Message.{Decoder}
use romancy.Operations.Receive.{received_again, receive_or_replay, receive}
use romancy.Replay.{load_event, load_history, new_execution_context, empty_context}
use romancy.Replay.Recorded.{event_reply, add_new-fresh}
use romancy.Replay.Loaded.{load_history-find}

-- The context of a run of the instance from a history, after any operations that were counted.
abbrev pub loaded : String → List HistoryEvent → (String → ℕ) → ExecutionContext
loaded id hs counts = record (new_execution_context id (select (of_instance id) hs)) {
  activity_counts = counts;
}

-- The reply to an event of the history is in the caches.
pub loaded-reply :
    (id i : String) (hs : List HistoryEvent) (counts : String → ℕ) (h : HistoryEvent) (c : Reply)
    → DistinctEvents hs
    → find (same_activity id i) hs ≡ some h
    → event_reply h ≡ some c
    → get_cached_result i (loaded id hs counts) ≡ some c
unfolding new_execution_context get_cached_result
loaded-reply id i hs counts h c d f e =
    load_history-find id i hs (empty_context id _) h c d refl f e

find-any-append :
    (p : HistoryEvent → Bool) (hs : List HistoryEvent) (h : HistoryEvent)
    → any p hs ≡ false
    → p h ≡ true
    → find p (hs ++ h ∷ []) ≡ some h
find-any-append p [] h a e = ground arith
find-any-append p (x ∷ hs) h a e = ground (arith, find-any-append p hs h)

-- The reply to an event that was just added.
pub added-reply :
    (t : ℕ) (e : HistoryEvent) (d : Db) (counts : String → ℕ) (c : Reply)
    → DistinctEvents d.history
    → any (same_activity e.instance_id e.activity_id) d.history ≡ false
    → event_reply e ≡ some c
    → get_cached_result e.activity_id (loaded e.instance_id (add_new_event t e d).history counts)
      ≡ some c
added-reply t e d counts c distinct fresh r =
    let row : HistoryEvent = record e { id = d.next_history_id; created_at = t } in
    rw (add_new-fresh t e d fresh) (
      loaded-reply e.instance_id e.activity_id (d.history ++ row ∷ []) counts row c
        (append-DistinctEvents d.history row fresh distinct)
        (find-any-append (same_activity e.instance_id e.activity_id) d.history row fresh
          (ground arith))
        r)

receive-cached :
    (fuel : ℕ) (t : Decoder) (channel : String) (timeout : Option ℕ) (ec : ExecutionContext)
    (w : World) (c : Reply)
    → get_cached_result
        (generate_activity_id ("receive_" <> channel) ec).0
        (generate_activity_id ("receive_" <> channel) ec).1
      ≡ some c
    → receive (suc fuel) t channel timeout ec w
      ≡ some (
        received_again t ec.instance_id channel
            (generate_activity_id ("receive_" <> channel) ec).0
            c,
        hit (generate_activity_id ("receive_" <> channel) ec).1,
        w,
      )
unfolding receive receive_or_replay generate_activity_id
receive-cached fuel t channel timeout ec w c e =
    ap
      (receive_or_replay (receive fuel t channel timeout) t channel
        (generate_activity_id ("receive_" <> channel) ec).0 timeout
        (generate_activity_id ("receive_" <> channel) ec).1 w)
      e

load_history-instance_id :
    (hs : List HistoryEvent) (ec : ExecutionContext)
    → (load_history hs ec).instance_id ≡ ec.instance_id
unfolding load_history load_event
load_history-instance_id [] ec = refl
load_history-instance_id (h ∷ hs) ec = load_history-instance_id hs (load_event h ec) ∙ ground arith

-- What `Receive` returns where the reply to its activity was loaded.
pub receive-loaded :
    (id : String) (hs : List HistoryEvent) (counts : String → ℕ) (i : String) (c : Reply) (fuel : ℕ)
    (t : Decoder) (channel : String) (timeout : Option ℕ) (w : World)
    → get_cached_result i (loaded id hs counts) ≡ some c
    → (generate_activity_id ("receive_" <> channel) (loaded id hs counts)).0 ≡ i
    → receive (suc fuel) t channel timeout (loaded id hs counts) w
      ≡ some (
        received_again t id channel i c,
        hit (generate_activity_id ("receive_" <> channel) (loaded id hs counts)).1,
        w,
      )
unfolding generate_activity_id get_cached_result new_execution_context
receive-loaded id hs counts i c fuel t channel timeout w cached named =
    receive-cached fuel t channel timeout (loaded id hs counts) w c
      (subst (λ k. get_cached_result k (loaded id hs counts) ≡ some c) (sym named) cached)
    ∙ ap
        (λ k. some (
          received_again t k channel
              (generate_activity_id ("receive_" <> channel) (loaded id hs counts)).0 c,
          hit (generate_activity_id ("receive_" <> channel) (loaded id hs counts)).1,
          w,
        ))
        (load_history-instance_id (select (of_instance id) hs) (empty_context id _))
    ∙ ap
        (λ k. some (
          received_again t id channel k c,
          hit (generate_activity_id ("receive_" <> channel) (loaded id hs counts)).1,
          w,
        ))
        named
