-- ===== src/Replay/Loaded.antt =====
-- The loop of `executeWorkflow` (internal/replay/engine.go) that fills the caches from a history.
use romancy.Base.{
  String, ◌≡◌, refl, ap, ◌∙◌, inl, inr, true, false, none, some, List, [], ◌∷◌, ◌≟◌, any, find,
  select, arith, Bool-cases,
}
use romancy.Storage.Models.{HistoryEvent}
use romancy.Storage.History.{of_instance, same_activity}
use romancy.Activity.{ExecutionContext, Reply, get_cached_result}
use romancy.Replay.{load_event, load_history}
use romancy.Storage.History.Numbered.{DistinctEvents}
use romancy.Replay.Recorded.{event_reply}

load_event-other :
    (h : HistoryEvent) (i : String) (ec : ExecutionContext)
    → (h.activity_id ≟ i ≡ false)
    → get_cached_result i (load_event h ec) ≡ get_cached_result i ec
unfolding load_event get_cached_result
load_event-other h i ec ne = ground arith

load_event-same :
    (h : HistoryEvent) (i : String) (ec : ExecutionContext) (c : Reply)
    → (h.activity_id ≟ i ≡ true)
    → get_cached_result i ec ≡ none
    → event_reply h ≡ some c
    → get_cached_result i (load_event h ec) ≡ some c
unfolding load_event get_cached_result
load_event-same h i ec c e fresh r = ground arith

module _ (id i : String) where
  load_history-miss :
      (hs : List HistoryEvent) (ec : ExecutionContext)
      → any (same_activity id i) hs ≡ false
      → get_cached_result i (load_history (select (of_instance id) hs) ec) ≡ get_cached_result i ec
  unfolding load_history
  load_history-miss [] ec m = refl
  load_history-miss (h ∷ hs) ec m = elim (Bool-cases (of_instance id h)) [
    | inl own ↦ rw own (
        load_history-miss hs (load_event h ec) (ground arith)
        ∙ load_event-other h i ec (ground arith))
    | inr not_own ↦ rw not_own (load_history-miss hs ec (ground arith))
  ]

  -- The reply to an event of the instance is in the cache.
  pub load_history-find :
      (hs : List HistoryEvent) (ec : ExecutionContext) (h : HistoryEvent) (c : Reply)
      → DistinctEvents hs
      → get_cached_result i ec ≡ none
      → find (same_activity id i) hs ≡ some h
      → event_reply h ≡ some c
      → get_cached_result i (load_history (select (of_instance id) hs) ec) ≡ some c
  unfolding load_history
  load_history-find [] ec h c d fresh f r = cc
  load_history-find (x ∷ hs) ec h c d fresh f r = elim (Bool-cases (of_instance id x)) [
    | inr not_own ↦ rw not_own (load_history-find hs ec h c d.1 fresh (ground arith) r)
    | inl own ↦ elim (Bool-cases (x.activity_id ≟ i)) [
      | inl named ↦
          let it : x ≡ h = ground arith in
          rw own (
            load_history-miss hs (load_event x ec) (ground arith)
            ∙ load_event-same x i ec c named fresh (ap event_reply it ∙ r))
      | inr other ↦ rw own (
          load_history-find hs (load_event x ec) h c d.1 (load_event-other x i ec other ∙ fresh)
            (ground arith) r)
    ]
  ]

load_event-counts :
    (h : HistoryEvent) (ec : ExecutionContext)
    → (load_event h ec).activity_counts ≡ ec.activity_counts
unfolding load_event
load_event-counts h ec = ground arith

pub load_history-counts :
    (hs : List HistoryEvent) (ec : ExecutionContext)
    → (load_history hs ec).activity_counts ≡ ec.activity_counts
unfolding load_history
load_history-counts [] ec = refl
load_history-counts (h ∷ hs) ec = load_history-counts hs (load_event h ec) ∙ load_event-counts h ec
