-- ===== src/Llm.antt =====
-- llm/llm.go and llm/durable_call.go: calls of a language model as durable activities.
pub mod Options
pub mod Answer
pub mod Encoded
pub mod Recorded
pub mod Replayed
pub mod Parsed
use romancy.Base.{
  String, ◌<>◌, ℕ, Bool, Option, none, some, List, [], ◌∷◌, ◌++◌, ◌≟◌, ◌||◌, if◌then◌else◌,
}
use romancy.Json.{Json, obj, Value, encodable, marshal}
use romancy.Json.Reread.{reread_fields}
use romancy.Errors.{Error, Result, ok, err, message, wrap}
use romancy.Storage.World.{World, M}
use romancy.Activity.{
  ExecutionContext, Cached, held, decoded, Reply, result, failure, dynamic_type,
  generate_activity_id, get_cached_result, record_activity_result, noted_in, hit,
}
use romancy.Llm.Options.{Config}
use romancy.Llm.Answer.{
  DurableResponse, Response, from_response, from_response_with_parsed, encode_response,
  decode_response,
}

abbrev pub unexpected_type : String → Error
unexpected_type go_type = message ("unexpected cached result type: " <> go_type)

abbrev pub unmarshalled : Option DurableResponse → Result DurableResponse
unmarshalled (some r) = ok r
unmarshalled none =
    err (wrap "failed to unmarshal cached result" (message "json: cannot unmarshal"))

-- The map is encoded, and decoded again.
abbrev pub from_json : Json → Result DurableResponse
from_json (obj fs) = unmarshalled (decode_response (reread_fields fs))
from_json j = err (unexpected_type (elim (dynamic_type j) [ none ↦ "<nil>" | some t ↦ t ]))

abbrev pub from_held_map : Option Json → Result DurableResponse
from_held_map none = err (wrap "failed to marshal cached result" (message "json: unsupported type"))
from_held_map (some j) = from_json j

abbrev pub from_own_json : Option Json → Result DurableResponse
from_own_json (some (obj fs)) = unmarshalled (decode_response fs)
from_own_json _ = unmarshalled none

-- What a call leaves: its result, the context and the world.
abbrev pub Answered : Type 0 → Type 0
Answered A = Result A × ExecutionContext × World

-- `RecordActivityResult` of the workflow context
abbrev pub recorded :
    {A : Type 0}
    → (Result (Unit {0}) → Result A)
    → String
    → Reply
    → ExecutionContext
    → Result (Unit {0}) × World
    → Answered A
recorded after activity_id r ec (out, w) = (after out, noted_in activity_id r ec out, w)

-- `_ = ctx.RecordActivityResult(activityID, nil, err)`, then the error is returned.
unfoldable pub record_failure :
    {A : Type 0} → Error → Error → String → ExecutionContext → World → Answered A
unfolding record_activity_result
record_failure cause returned activity_id ec w =
    recorded (λ _. err returned) activity_id (failure cause) ec
      (record_activity_result ec.instance_id activity_id (err cause) w)

abbrev pub instead : {A : Type 0} → A → Result (Unit {0}) → Result A
instead a (ok _) = ok a
instead a (err e) = err (wrap "failed to record LLM call result" e)

unfoldable pub record_response :
    {A : Type 0} → A → DurableResponse → String → ExecutionContext → World → Answered A
unfolding record_activity_result encode_response
record_response a r activity_id ec w =
    recorded (instead a) activity_id (result (held "*llm.DurableResponse" (encode_response r))) ec
      (record_activity_result ec.instance_id activity_id (ok (encode_response r)) w)

-- `error_type` is the `%T` of an error.
module _ (error_type : Error → String) where
  -- `cachedToDurableResponse`; an answer that is held in memory is known by its encoding.
  unfoldable pub cached_to_durable_response : Reply → Result DurableResponse
  unfolding decode_response
  cached_to_durable_response (failure e) = err (unexpected_type (error_type e))
  cached_to_durable_response (result (decoded j)) = from_json j
  cached_to_durable_response (result (held go_type v)) =
      if (go_type ≟ "*llm.DurableResponse") || (go_type ≟ "llm.DurableResponse")
      then from_own_json (marshal v)
      else if go_type ≟ "map[string]interface {}"
      then from_held_map (marshal v)
      else err (unexpected_type go_type)

  -- `ask` is the call of the model with the configuration, which the library bucephalus makes.
  module _ (cfg : Config) (ask : M Response) where
    abbrev pub answered :
        String → ExecutionContext → Result Response × World → Answered DurableResponse
    answered activity_id ec (err e, w) = record_failure e e activity_id ec w
    answered activity_id ec (ok resp, w) =
        let r : DurableResponse = from_response resp cfg.provider cfg.model in
        record_response r r activity_id ec w

    abbrev pub ask_or_cached :
        String → ExecutionContext → World → Option Reply → Answered DurableResponse
    ask_or_cached activity_id ec w (some c) = (cached_to_durable_response c, hit ec, w)
    ask_or_cached activity_id ec w none = answered activity_id ec (ask w)

    -- The body that `Call`, `CallMessages`, `Execute` and `ExecuteMessages` share.
    unfoldable pub durable_call : String → ExecutionContext → World → Answered DurableResponse
    unfolding get_cached_result record_failure record_response from_response
    durable_call function_name ec w =
        let (activity_id, ec') = generate_activity_id function_name ec in
        ask_or_cached activity_id ec' w (get_cached_result activity_id ec')

  -- The calls whose answer is parsed into a type. `encode` and `decode` are encoding/json for it,
  -- `parse` reads the answer, and the two functions say what the caller is told of a failure.
  module _ {T : Type 0} (encode : T → Value) (decode : Json → Result T)
      (unread unparsed : Error → Error) (parse : Response → Result T) (cfg : Config)
      (ask : M Response) where
    abbrev pub decoded_value : Result T → Result T
    decoded_value (ok t) = ok t
    decoded_value (err e) = err (unread e)

    abbrev pub structured_value : Option Json → Result T
    structured_value none = err (message "no structured data in cached result")
    structured_value (some j) = decoded_value (decode j)

    -- `cachedToParsedResult`
    abbrev pub parsed_value : Result DurableResponse → Result T
    parsed_value (err e) = err e
    parsed_value (ok r) = structured_value r.structured

    abbrev pub parsed_answer : String → ExecutionContext → Response → World → Result T → Answered T
    parsed_answer activity_id ec resp w (err e) = record_failure e (unparsed e) activity_id ec w
    parsed_answer activity_id ec resp w (ok t) =
        record_response t (from_response_with_parsed resp cfg.provider cfg.model (encode t))
          activity_id ec w

    abbrev pub answered_value : String → ExecutionContext → Result Response × World → Answered T
    answered_value activity_id ec (err e, w) = record_failure e e activity_id ec w
    answered_value activity_id ec (ok resp, w) = parsed_answer activity_id ec resp w (parse resp)

    abbrev pub parse_or_cached : String → ExecutionContext → World → Option Reply → Answered T
    parse_or_cached activity_id ec w (some c) =
        (parsed_value (cached_to_durable_response c), hit ec, w)
    parse_or_cached activity_id ec w none = answered_value activity_id ec (ask w)

    -- The body that `CallParse`, `CallMessagesParse`, `ExecuteParse` and `ExecuteMessagesParse`
    -- share.
    unfoldable pub durable_parse : String → ExecutionContext → World → Answered T
    unfolding get_cached_result record_failure record_response from_response_with_parsed
        cached_to_durable_response
    durable_parse function_name ec w =
        let (activity_id, ec') = generate_activity_id function_name ec in
        parse_or_cached activity_id ec' w (get_cached_result activity_id ec')

  -- The answer is asked for with the prompt or with the messages.
  module _ (cfg : Config) (ask : M Response) where
    abbrev pub call : ExecutionContext → World → Answered DurableResponse
    call = durable_call cfg ask "llm_call"

    abbrev pub call_messages : ExecutionContext → World → Answered DurableResponse
    call_messages = durable_call cfg ask "llm_call_messages"

    -- The same of a `DurableCall`, by its name.
    abbrev pub execute_prompt : String → ExecutionContext → World → Answered DurableResponse
    execute_prompt name = durable_call cfg ask name

    abbrev pub execute_messages : String → ExecutionContext → World → Answered DurableResponse
    execute_messages name = durable_call cfg ask (name <> "_messages")

    module _ {T : Type 0} (encode : T → Value) (decode : Json → Result T) where
      -- `parsed` is the method `Parsed` of the answer.
      abbrev pub call_parse : (Response → Result T) → String → ExecutionContext → World → Answered T
      call_parse parsed name =
          durable_parse encode decode (wrap "failed to unmarshal structured data") (λ e. e) parsed
            cfg ask name

      -- `read` is `json.Unmarshal` of the text of the answer.
      abbrev pub execute_parse :
          (String → Result T) → String → ExecutionContext → World → Answered T
      execute_parse read name =
          durable_parse encode decode (λ e. e) (wrap "failed to parse LLM response")
            (λ resp. read resp.text) cfg ask name
