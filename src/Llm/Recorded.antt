-- ===== src/Llm/Recorded.antt =====
-- llm/llm.go and llm/durable_call.go: what a call of a language model records, and what a later run makes
-- of the event.
use romancy.Base.{
  subst, String, ◌<>◌, itoa, suc, ◌≡◌, refl, ap, same, false, none, some, [], ◌∷◌, ◌++◌, any, arith,
}
use romancy.Json.{Json, str, encodable}
use romancy.Json.Reread.{IsExact, HaveExact, reread, reread_fields-HaveExact}
use romancy.Errors.{Error, Result, ok, err, message, error_text}
use romancy.Storage.Models.{HistoryEvent, HistoryEventType, activity_completed, activity_failed}
use romancy.Storage.World.{World, seconds}
use romancy.Storage.History.{append_history, same_activity}
use romancy.Activity.{
  ExecutionContext, decoded, result, failure, activity_event, generate_activity_id,
  get_cached_result, record_activity_result,
}
use romancy.Replay.{load_event}
use romancy.Replay.Recorded.{add_new-fresh}
use romancy.Replay.Executed.{append_history_done}
use romancy.Llm.{record_failure, record_response, cached_to_durable_response, Answered}
use romancy.Llm.Answer.{DurableResponse, encode_response}
use romancy.Llm.Encoded.{encode_response-decoded}

-- The event that a call records in a world.
abbrev pub event_of : String → String → HistoryEventType → Json → World → HistoryEvent
event_of instance_id i kind j w = record (activity_event instance_id i kind j) {
  id = w.db.next_history_id;
  created_at = seconds w;
}

pub record-event :
    (i : String) (kind : HistoryEventType) (j : Json) (ec : ExecutionContext) (w : World)
    → w.faults ≡ []
    → any (same_activity ec.instance_id i) w.db.history ≡ false
    → let out : Result (Unit {0}) × World =
        append_history (activity_event ec.instance_id i kind j) w in
      (out.0 ≡ ok tt)
      × ((out.1).db.history ≡ w.db.history ++ event_of ec.instance_id i kind j w ∷ [])
record-event i kind j ec w f fresh =
    rw (append_history_done (activity_event ec.instance_id i kind j) w f)
      (refl, add_new-fresh (seconds w) (activity_event ec.instance_id i kind j) w.db fresh)

-- An answer that has an encoding is recorded.
pub record_response-recorded :
    {A : Type 0} (a : A) (r : DurableResponse) (j : Json) (i : String) (ec : ExecutionContext)
    (w : World)
    → w.faults ≡ []
    → any (same_activity ec.instance_id i) w.db.history ≡ false
    → encode_response r ≡ encodable j
    → let out : Answered A = record_response a r i ec w in
      (out.0 ≡ ok a)
      × ((out.2).db.history ≡ w.db.history ++ event_of ec.instance_id i activity_completed j w ∷ [])
unfolding record_response record_activity_result
record_response-recorded a r j i ec w f fresh e =
    let (kept, grown) = record-event i activity_completed j ec w f fresh in
    rw e (rw kept refl, grown)

pub record_failure-recorded :
    (x : Error) (i : String) (ec : ExecutionContext) (w : World)
    → w.faults ≡ []
    → any (same_activity ec.instance_id i) w.db.history ≡ false
    → let out : Answered DurableResponse = record_failure x x i ec w in
      (out.0 ≡ err x)
      × ((out.2).db.history
          ≡ w.db.history ++ event_of ec.instance_id i activity_failed (str (error_text x)) w ∷ [])
unfolding record_failure record_activity_result
record_failure-recorded x i ec w f fresh =
    (refl, (record-event i activity_failed (str (error_text x)) ec w f fresh).1)

pub named_again :
    (name : String) (ec ec' : ExecutionContext)
    → ec'.activity_counts name ≡ ec.activity_counts name
    → (generate_activity_id name ec').0 ≡ (generate_activity_id name ec).0
unfolding generate_activity_id
named_again name ec ec' e = ap (λ n. name <> (":" <> itoa (suc n))) e

pub loaded_result :
    (owner i : String) (j : Json) (w : World) (ec : ExecutionContext)
    → get_cached_result i (load_event (event_of owner i activity_completed j w) ec)
      ≡ some (result (decoded j))
unfolding get_cached_result load_event same
loaded_result owner i j w ec = ground (arith)

pub loaded_failure :
    (owner i : String) (s : String) (w : World) (ec : ExecutionContext)
    → ec.cached_results i ≡ none
    → get_cached_result i (load_event (event_of owner i activity_failed (str s) w) ec)
      ≡ some (failure (message s))
unfolding get_cached_result load_event
loaded_failure owner i s w ec e = ground (arith, e)

-- What is read back of an answer.
pub replayed_response :
    (error_type : Error → String) (r : DurableResponse) (j : Json)
    → encode_response r ≡ encodable j
    → IsExact j
    → cached_to_durable_response error_type (result (decoded j)) ≡ ok r
unfolding cached_to_durable_response IsExact reread
replayed_response error_type r j e x =
    let (fs, shape, read) = encode_response-decoded r j e in
    let exact : HaveExact fs = subst IsExact shape x in
    rw (shape, reread_fields-HaveExact fs exact, read) refl
