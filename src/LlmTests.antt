-- ===== src/LlmTests.antt =====
-- A call of a language model in a small database, and the theorems at it.
use romancy.Base.{arith, false, String, ℕ, ◌≡◌, refl, Option, none, some, [], ◌∷◌, ◌++◌, same, itoa}
use romancy.Json.{Json, num, obj, end, field, str, nil, cons, Value, encodable}
use romancy.Json.Reread.{IsExact, IsExactOption}
use romancy.Errors.{Error, Result, ok, err, message, wrap, error_text}
use romancy.Storage.Models.{activity_completed, activity_failed}
use romancy.Storage.World.{M}
use romancy.Replay.{load_event, empty_context}
use romancy.Activity.{ExecutionContext, get_cached_result, generate_activity_id}
use romancy.Llm.Options.{Config, new_config, build_config, with_model, with_provider}
use romancy.Llm.{durable_call, durable_parse, unexpected_type}
use romancy.Llm.Answer.{
  Response, DurableResponse, from_response, from_response_with_parsed, encode_response,
  encode_calls, response_fields,
}
use romancy.Llm.Recorded.{event_of}
use romancy.Llm.Replayed.{durable_call-replayed, durable_call-failed}
use romancy.Llm.Parsed.{durable_parse-replayed}
use romancy.AppTests.{waiting_world}

abbrev answer : Response
answer = record {
  text = "5";
  finish_reason = "stop";
  usage = record { prompt_tokens = 7; completion_tokens = 1; total_tokens = 8 };
  tool_calls = record { id = "c1"; name = "add"; arguments = encodable (obj end) } ∷ [];
}

abbrev cfg : Config
unfolding build_config
cfg = build_config (with_provider "anthropic" ∷ []) (with_model "m" ∷ []) []

abbrev kept : DurableResponse
unfolding from_response
kept = from_response answer "anthropic" "m"

abbrev call_field : Json
call_field =
    obj (field "id" (str "c1") (field "name" (str "add") (field "arguments" (obj end) end)))

abbrev shown : Option Json → Json
unfolding same
shown s = obj (response_fields (record kept { structured = s }) (cons call_field nil))

abbrev asks : M Response
asks w = (ok answer, w)

abbrev asks_in_vain : M Response
asks_in_vain w = (err (message "overloaded"), w)

abbrev context : ExecutionContext
context = empty_context "w1" false

abbrev type_of : Error → String
type_of e = "*errors.errorString"

shown-IsExact : (s : Option Json) → IsExactOption s → IsExact (shown s)
unfolding IsExact shown same kept from_response
shown-IsExact none x = (
  tt,
  (
    tt,
    (tt, ((omega arith, (omega arith, (omega arith, tt))), (((tt, (tt, (tt, tt))), tt), (tt, tt)))),
  ),
)
shown-IsExact (some j) x = (
  tt,
  (
    tt,
    (
      tt,
      (
        (omega arith, (omega arith, (omega arith, tt))),
        (((tt, (tt, (tt, tt))), tt), (tt, (x, tt))),
      ),
    ),
  ),
)

five-IsExact : IsExact (num 5)
unfolding IsExact
five-IsExact = omega arith

durable_call-replayed_example :
    let h =
      event_of "w1"
        (generate_activity_id "llm_call" context).0
        activity_completed
        (shown none)
        waiting_world in
    let first = durable_call type_of cfg asks "llm_call" context waiting_world in
    let again =
      durable_call type_of new_config asks_in_vain "llm_call"
        (load_event h context)
        waiting_world in
    (first.0 ≡ ok kept)
    × ((first.2).db.history ≡ waiting_world.db.history ++ h ∷ [])
    × (again.0 ≡ ok kept)
    × (again.2 ≡ waiting_world)
unfolding cfg build_config same get_cached_result generate_activity_id itoa from_response
    encode_response encode_calls kept shown
durable_call-replayed_example =
    durable_call-replayed type_of cfg new_config asks asks_in_vain "llm_call" context context
      waiting_world waiting_world waiting_world answer (shown none) refl refl refl refl refl
      (shown-IsExact none tt) refl

durable_call-failed_example :
    let h =
      event_of "w1"
        (generate_activity_id "llm_call" context).0
        activity_failed
        (str "overloaded")
        waiting_world in
    let first = durable_call type_of cfg asks_in_vain "llm_call" context waiting_world in
    let again = durable_call type_of cfg asks "llm_call" (load_event h context) waiting_world in
    (first.0 ≡ err (message "overloaded"))
    × ((first.2).db.history ≡ waiting_world.db.history ++ h ∷ [])
    × (again.0 ≡ err (unexpected_type "*errors.errorString"))
    × (again.2 ≡ waiting_world)
unfolding get_cached_result generate_activity_id itoa same error_text
durable_call-failed_example =
    durable_call-failed type_of cfg cfg asks_in_vain asks "llm_call" context context waiting_world
      waiting_world waiting_world (message "overloaded") refl refl refl refl refl refl

abbrev number_json : ℕ → Value
number_json n = encodable (num n)

abbrev number_from : Json → Result ℕ
number_from (num n) = ok n
number_from _ = err (message "json: cannot unmarshal")

abbrev parses : Response → Result ℕ
parses resp = ok 5

durable_parse-replayed_example :
    let parsed =
      durable_parse type_of number_json number_from
        (wrap "failed to unmarshal structured data")
        (λ e. e)
        parses in
    let h =
      event_of "w1"
        (generate_activity_id "llm_call_parse" context).0
        activity_completed
        (shown (some (num 5)))
        waiting_world in
    let first = parsed cfg asks "llm_call_parse" context waiting_world in
    let again =
      parsed new_config asks_in_vain "llm_call_parse" (load_event h context) waiting_world in
    (first.0 ≡ ok 5)
    × ((first.2).db.history ≡ waiting_world.db.history ++ h ∷ [])
    × (again.0 ≡ ok 5)
    × (again.2 ≡ waiting_world)
unfolding cfg build_config same get_cached_result generate_activity_id itoa from_response
    from_response_with_parsed encode_response encode_calls kept shown
durable_parse-replayed_example =
    durable_parse-replayed type_of number_json number_from
      (wrap "failed to unmarshal structured data") (λ e. e) parses "llm_call_parse" cfg new_config
      asks asks_in_vain context context waiting_world waiting_world waiting_world answer 5 (num 5)
      (shown (some (num 5))) refl refl refl refl refl refl refl refl
      (shown-IsExact (some (num 5)) five-IsExact) refl
