-- ===== src/Llm/Parsed.antt =====
-- llm/llm.go and llm/durable_call.go: a call of a language model whose answer is parsed, and the same call in a later run,
-- which has the recorded event in its context.
use romancy.Base.{String, ◌≡◌, refl, ap, same, false, none, some, [], ◌∷◌, ◌++◌, any}
use romancy.Json.{Json, Value, encodable, marshal}
use romancy.Json.Reread.{IsExact}
use romancy.Errors.{Error, Result, ok}
use romancy.Storage.Models.{HistoryEvent, activity_completed}
use romancy.Storage.World.{World, M}
use romancy.Storage.History.{same_activity}
use romancy.Activity.{
  ExecutionContext, decoded, Reply, result, generate_activity_id, get_cached_result, hit,
}
use romancy.Replay.{load_event}
use romancy.Llm.Options.{Config}
use romancy.Llm.{
  durable_parse, record_response, cached_to_durable_response, parse_or_cached, parsed_value,
  Answered,
}
use romancy.Llm.Answer.{DurableResponse, Response, from_response_with_parsed, encode_response}
use romancy.Llm.Recorded.{
  event_of, record_response-recorded, named_again, loaded_result, replayed_response,
}

module _ (error_type : Error → String) {T : Type 0} (encode : T → Value) (decode : Json → Result T)
    (unread unparsed : Error → Error) (parse : Response → Result T) (name : String) where
  module _ (cfg later : Config) (ask again : M Response) (ec ec' : ExecutionContext)
      (w v u : World) where
    abbrev first_id : String
    first_id = (generate_activity_id name ec).0

    abbrev first_run : Answered T
    first_run = durable_parse error_type encode decode unread unparsed parse cfg ask name ec w

    abbrev later_run : HistoryEvent → Answered T
    later_run h =
        durable_parse error_type encode decode unread unparsed parse later again name
          (load_event h ec') u

    abbrev parsed_response : Response → T → DurableResponse
    parsed_response resp t = from_response_with_parsed resp cfg.provider cfg.model (encode t)

    first_run-records :
        (resp : Response) (t : T)
        → get_cached_result first_id ec ≡ none
        → ask w ≡ (ok resp, v)
        → parse resp ≡ ok t
        → first_run
          ≡ record_response t (parsed_response resp t) first_id (generate_activity_id name ec).1 v
    unfolding durable_parse get_cached_result generate_activity_id
    first_run-records resp t fresh asked parsed = rw (fresh, asked, parsed) refl

    later_run-cached :
        (h : HistoryEvent) (c : Reply)
        → get_cached_result (generate_activity_id name (load_event h ec')).0 (load_event h ec')
          ≡ some c
        → later_run h ≡ (
          parsed_value error_type encode decode unread unparsed parse later again
              (cached_to_durable_response error_type c),
          hit (generate_activity_id name (load_event h ec')).1,
          u,
        )
    unfolding durable_parse get_cached_result generate_activity_id
    later_run-cached h c found =
        ap
          (parse_or_cached error_type encode decode unread unparsed parse later again
            (generate_activity_id name (load_event h ec')).0
            (generate_activity_id name (load_event h ec')).1 u)
          found

    later_run-reads :
        (h : HistoryEvent) (r : DurableResponse) (t : T) (k j : Json)
        → (load_event h ec').activity_counts name ≡ ec.activity_counts name
        → get_cached_result first_id (load_event h ec') ≡ some (result (decoded j))
        → encode_response r ≡ encodable j
        → IsExact j
        → r.structured ≡ some k
        → decode k ≡ ok t
        → ((later_run h).0 ≡ ok t) × ((later_run h).2 ≡ u)
    later_run-reads h r t k j counted found encoded x there read =
        rw
          (later_run-cached h (result (decoded j))
            (rw (named_again name ec (load_event h ec') counted) found))
          (rw (replayed_response error_type r j encoded x, there, read) refl, refl)

    -- An answer that is parsed into a type is asked for once: let nothing be cached for the call, let
    -- the model answer and the answer parse into a value, let the encoding of the value be decoded
    -- into it, let what the history keeps have an encoding, with no number
    -- above 2 ^ 53, the driver not fail, and the history
    -- have no event of the call. Then the call returns the value and adds one event to the history.
    -- A run that has loaded that event, and has come to as many calls under the name, returns the
    -- same value, whatever the model would say and whatever the options are, and leaves the world as
    -- it is.
    pub durable_parse-replayed :
        (resp : Response) (t : T) (k j : Json)
        → get_cached_result first_id ec ≡ none
        → ask w ≡ (ok resp, v)
        → parse resp ≡ ok t
        → encode t ≡ encodable k
        → decode k ≡ ok t
        → v.faults ≡ []
        → any (same_activity ec.instance_id first_id) v.db.history ≡ false
        → encode_response (parsed_response resp t) ≡ encodable j
        → IsExact j
        → ec'.activity_counts name ≡ ec.activity_counts name
        → let h : HistoryEvent = event_of ec.instance_id first_id activity_completed j v in
          (first_run.0 ≡ ok t)
          × ((first_run.2).db.history ≡ v.db.history ++ h ∷ [])
          × ((later_run h).0 ≡ ok t)
          × ((later_run h).2 ≡ u)
    unfolding load_event same generate_activity_id from_response_with_parsed
    durable_parse-replayed resp t k j fresh asked parsed shown read f absent encoded x counted =
        let (told, kept) =
          record_response-recorded t (parsed_response resp t) j first_id
            (generate_activity_id name ec).1 v f absent encoded in
        let (replied, same_world) =
          later_run-reads (event_of ec.instance_id first_id activity_completed j v)
            (parsed_response resp t) t k j counted (loaded_result ec.instance_id first_id j v ec')
            encoded x (ap marshal shown) read in
        rw (first_run-records resp t fresh asked parsed) (told, kept, replied, same_world)
