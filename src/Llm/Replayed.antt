-- ===== src/Llm/Replayed.antt =====
-- llm/llm.go and llm/durable_call.go: a call of a language model, and the same call in a later run,
-- which has the recorded event in its context.
use romancy.Base.{String, ◌≡◌, refl, ap, same, ◌∙◌, false, none, some, [], ◌∷◌, ◌++◌, any}
use romancy.Json.{Json, str, encodable}
use romancy.Json.Reread.{IsExact}
use romancy.Errors.{Error, Result, ok, err, message, error_text}
use romancy.Storage.Models.{HistoryEvent, activity_completed, activity_failed}
use romancy.Storage.World.{World, M}
use romancy.Storage.History.{same_activity}
use romancy.Activity.{
  ExecutionContext, decoded, Reply, result, failure, generate_activity_id, get_cached_result, hit,
}
use romancy.Replay.{load_event}
use romancy.Llm.Options.{Config}
use romancy.Llm.{
  durable_call, cached_to_durable_response, unexpected_type, answered, ask_or_cached, Answered,
}
use romancy.Llm.Answer.{DurableResponse, Response, from_response, encode_response}
use romancy.Llm.Recorded.{
  event_of, record_response-recorded, record_failure-recorded, named_again, loaded_result,
  loaded_failure, replayed_response,
}

-- Where nothing is cached, the model is asked.
durable_call-asks :
    (error_type : Error → String) (cfg : Config) (ask : M Response) (name : String)
    (ec : ExecutionContext) (w : World)
    → get_cached_result (generate_activity_id name ec).0 ec ≡ none
    → durable_call error_type cfg ask name ec w
      ≡ answered error_type cfg ask
          (generate_activity_id name ec).0
          (generate_activity_id name ec).1
          (ask w)
unfolding durable_call get_cached_result generate_activity_id
durable_call-asks error_type cfg ask name ec w e =
    ap
      (ask_or_cached error_type cfg ask (generate_activity_id name ec).0
        (generate_activity_id name ec).1 w)
      e

-- Where a reply is cached, the model is not asked.
durable_call-cached :
    (error_type : Error → String) (cfg : Config) (ask : M Response) (name : String) (c : Reply)
    (ec : ExecutionContext) (w : World)
    → get_cached_result (generate_activity_id name ec).0 ec ≡ some c
    → durable_call error_type cfg ask name ec w
      ≡ (cached_to_durable_response error_type c, hit (generate_activity_id name ec).1, w)
unfolding durable_call get_cached_result generate_activity_id
durable_call-cached error_type cfg ask name c ec w e =
    ap
      (ask_or_cached error_type cfg ask (generate_activity_id name ec).0
        (generate_activity_id name ec).1 w)
      e

module _ (error_type : Error → String) (cfg later : Config) (ask again : M Response) (name : String)
    (ec ec' : ExecutionContext) (w v u : World) where
  abbrev first_id : String
  first_id = (generate_activity_id name ec).0

  abbrev first_run : Answered DurableResponse
  first_run = durable_call error_type cfg ask name ec w

  abbrev later_run : HistoryEvent → Answered DurableResponse
  later_run h = durable_call error_type later again name (load_event h ec') u

  -- The later run, where the reply that the event becomes is known.
  later_run-cached :
      (h : HistoryEvent) (c : Reply)
      → (load_event h ec').activity_counts name ≡ ec.activity_counts name
      → get_cached_result first_id (load_event h ec') ≡ some c
      → ((later_run h).0 ≡ cached_to_durable_response error_type c) × ((later_run h).2 ≡ u)
  later_run-cached h c counted found =
      rw
        (durable_call-cached error_type later again name c (load_event h ec') u
          (rw (named_again name ec (load_event h ec') counted) found))
        (refl, refl)

  first_run-asks :
      (answer : Result Response × World)
      → get_cached_result first_id ec ≡ none
      → ask w ≡ answer
      → first_run ≡ answered error_type cfg ask first_id (generate_activity_id name ec).1 answer
  first_run-asks answer fresh asked =
      durable_call-asks error_type cfg ask name ec w fresh
      ∙ ap (answered error_type cfg ask first_id (generate_activity_id name ec).1) asked

  -- A call of a language model is made once: let nothing be cached for the call, let the model
  -- answer, let what the history keeps of the answer have an encoding, with no number above 2 ^ 53, the
  -- driver not fail, and the
  -- history have no event of the call. Then the call returns the answer and adds one event to the
  -- history. A run that has loaded that event, and has come to as many calls under the name, returns
  -- the same answer, whatever the model would say and whatever the options are, and leaves the world
  -- as it is.
  pub durable_call-replayed :
      (resp : Response) (j : Json)
      → get_cached_result first_id ec ≡ none
      → ask w ≡ (ok resp, v)
      → v.faults ≡ []
      → any (same_activity ec.instance_id first_id) v.db.history ≡ false
      → encode_response (from_response resp cfg.provider cfg.model) ≡ encodable j
      → IsExact j
      → ec'.activity_counts name ≡ ec.activity_counts name
      → let h : HistoryEvent = event_of ec.instance_id first_id activity_completed j v in
        (first_run.0 ≡ ok (from_response resp cfg.provider cfg.model))
        × ((first_run.2).db.history ≡ v.db.history ++ h ∷ [])
        × ((later_run h).0 ≡ ok (from_response resp cfg.provider cfg.model))
        × ((later_run h).2 ≡ u)
  unfolding load_event same generate_activity_id
  durable_call-replayed resp j fresh asked f absent encoded x counted =
      let (told, kept) =
        record_response-recorded (from_response resp cfg.provider cfg.model)
          (from_response resp cfg.provider cfg.model) j first_id (generate_activity_id name ec).1 v
          f absent encoded in
      let (replied, same_world) =
        later_run-cached (event_of ec.instance_id first_id activity_completed j v)
          (result (decoded j)) counted (loaded_result ec.instance_id first_id j v ec') in
      rw (first_run-asks (ok resp, v) fresh asked) (
        told,
        kept,
        replied
            ∙ replayed_response error_type (from_response resp cfg.provider cfg.model) j encoded x,
        same_world,
      )

  -- A call of a language model that fails does so otherwise when it is replayed: let nothing be
  -- cached for the call, let the model fail, the driver not fail, and the history have no event of
  -- the call. Then the call returns the model's error and adds one event to the history. A run that
  -- has loaded that event, and has come to as many calls under the name and has no result of the
  -- call, makes no call and returns an error whose text tells the type of the cached error alone.
  pub durable_call-failed :
      (x : Error)
      → get_cached_result first_id ec ≡ none
      → ask w ≡ (err x, v)
      → v.faults ≡ []
      → any (same_activity ec.instance_id first_id) v.db.history ≡ false
      → ec'.activity_counts name ≡ ec.activity_counts name
      → ec'.cached_results first_id ≡ none
      → let h : HistoryEvent =
          event_of ec.instance_id first_id activity_failed (str (error_text x)) v in
        (first_run.0 ≡ err x)
        × ((first_run.2).db.history ≡ v.db.history ++ h ∷ [])
        × ((later_run h).0 ≡ err (unexpected_type (error_type (message (error_text x)))))
        × ((later_run h).2 ≡ u)
  unfolding load_event generate_activity_id cached_to_durable_response
  durable_call-failed x fresh asked f absent counted free =
      let (told, kept) =
        record_failure-recorded x first_id (generate_activity_id name ec).1 v f absent in
      let (replied, same_world) =
        later_run-cached (event_of ec.instance_id first_id activity_failed (str (error_text x)) v)
          (failure (message (error_text x))) counted
          (loaded_failure ec.instance_id first_id (error_text x) v ec' free) in
      rw (first_run-asks (err x, v) fresh asked) (told, kept, replied, same_world)
