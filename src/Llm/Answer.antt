-- ===== src/Llm/Answer.antt =====
-- llm/response.go: the answer of a language model as it is kept in the history, with its encoding
-- by encoding/json. A raw message is the JSON value that its text is, or none: then it cannot be
-- encoded. The case of the keys is not folded.
use romancy.Base.{String, ℕ, Option, none, some, List, [], ◌∷◌, ltb, ite, same, if◌then◌else◌}
use romancy.Json.{
  Json, null, num, str, arr, obj, Items, nil, cons, Fields, end, field, get_field, Value, encodable,
  unencodable, marshal,
}

pub record Usage : Type 0 where
  pub prompt_tokens : ℕ
  pub completion_tokens : ℕ
  pub total_tokens : ℕ

pub record ToolCall : Type 0 where
  pub id : String
  pub name : String
  pub arguments : Value

pub record DurableResponse : Type 0 where
  pub text : String
  pub model : String
  pub provider : String
  pub usage : Option Usage
  pub tool_calls : List ToolCall
  pub finish_reason : String
  pub structured : Option Json

-- What the methods of `bucephalus.Response` return.
pub record Response : Type 0 where
  pub text : String
  pub finish_reason : String
  pub usage : Usage
  pub tool_calls : List ToolCall

-- `FromBucephalusResponse`
abbrev pub copied_usage : Usage → Option Usage
copied_usage u = if ltb 0 u.total_tokens then some u else none

unfoldable pub from_response : Response → String → String → DurableResponse
from_response resp provider model = record {
  text = resp.text;
  model = model;
  provider = provider;
  usage = copied_usage resp.usage;
  tool_calls = resp.tool_calls;
  finish_reason = resp.finish_reason;
  structured = none;
}

-- `FromBucephalusResponseWithParsed`; `parsed` is the value as `json.Marshal` sees it.
unfoldable pub from_response_with_parsed : Response → String → String → Value → DurableResponse
unfolding from_response
from_response_with_parsed resp provider model parsed = record (from_response resp provider model) {
  structured = marshal parsed;
}

-- A field with `omitempty`.
abbrev pub optional_field : String → Option Json → Fields → Fields
optional_field key none rest = rest
optional_field key (some j) rest = field key j rest

abbrev pub text_json : String → Option Json
text_json s = ite (same s "") none (some (str s))

abbrev pub usage_json : Option Usage → Option Json
usage_json none = none
usage_json (some u) = some (
    obj (
      field "prompt_tokens" (num u.prompt_tokens) (
        field "completion_tokens" (num u.completion_tokens)
          (field "total_tokens" (num u.total_tokens) end))))

abbrev pub calls_json : Items → Option Json
calls_json nil = none
calls_json (cons j items) = some (arr (cons j items))

abbrev pub call_json : ToolCall → Json → Json
call_json c arguments =
    obj (field "id" (str c.id) (field "name" (str c.name) (field "arguments" arguments end)))

abbrev pub with_call : ToolCall → Option Json → Option Items → Option Items
with_call c (some j) (some items) = some (cons (call_json c j) items)
with_call c _ _ = none

unfoldable pub encode_calls : List ToolCall → Option Items
encode_calls [] = some nil
encode_calls (c ∷ cs) = with_call c (marshal c.arguments) (encode_calls cs)

abbrev pub response_fields : DurableResponse → Items → Fields
response_fields r items = field "text" (str r.text) (
    optional_field "model" (text_json r.model) (
      optional_field "provider" (text_json r.provider) (
        optional_field "usage" (usage_json r.usage) (
          optional_field "tool_calls" (calls_json items) (
            optional_field "finish_reason" (text_json r.finish_reason)
              (optional_field "structured" r.structured end))))))

abbrev pub response_value : DurableResponse → Option Items → Value
response_value r none = unencodable
response_value r (some items) = encodable (obj (response_fields r items))

-- `json.Marshal` of a `DurableResponse`
unfoldable pub encode_response : DurableResponse → Value
unfolding encode_calls
encode_response r = response_value r (encode_calls r.tool_calls)

-- `json.Unmarshal` into a field: a missing one and null leave it empty.
abbrev pub text_in : Option Json → Option String
text_in none = some ""
text_in (some null) = some ""
text_in (some (str s)) = some s
text_in _ = none

abbrev pub number_in : Option Json → Option ℕ
number_in none = some 0
number_in (some null) = some 0
number_in (some (num n)) = some n
number_in _ = none

abbrev pub usage_of : Option ℕ → Option ℕ → Option ℕ → Option (Option Usage)
usage_of (some a) (some b) (some c) =
    some (some (record { prompt_tokens = a; completion_tokens = b; total_tokens = c }))
usage_of _ _ _ = none

abbrev pub usage_in : Option Json → Option (Option Usage)
usage_in none = some none
usage_in (some null) = some none
usage_in (some (obj fs)) =
    usage_of (number_in (get_field "prompt_tokens" fs))
      (number_in (get_field "completion_tokens" fs)) (number_in (get_field "total_tokens" fs))
usage_in _ = none

abbrev pub raw_in : Option Json → Value
raw_in none = encodable null
raw_in (some j) = encodable j

abbrev pub call_of : Option String → Option String → Value → Option ToolCall
call_of (some id) (some name) arguments =
    some (record { id = id; name = name; arguments = arguments })
call_of _ _ _ = none

abbrev pub call_in : Json → Option ToolCall
call_in null = some (record { id = ""; name = ""; arguments = encodable null })
call_in (obj fs) =
    call_of (text_in (get_field "id" fs)) (text_in (get_field "name" fs))
      (raw_in (get_field "arguments" fs))
call_in _ = none

abbrev pub prepended : Option ToolCall → Option (List ToolCall) → Option (List ToolCall)
prepended (some c) (some cs) = some (c ∷ cs)
prepended _ _ = none

unfoldable pub decode_calls : Items → Option (List ToolCall)
decode_calls nil = some []
decode_calls (cons j items) = prepended (call_in j) (decode_calls items)

abbrev pub calls_in : Option Json → Option (List ToolCall)
calls_in none = some []
calls_in (some null) = some []
calls_in (some (arr items)) = decode_calls items
calls_in _ = none

abbrev pub response_of :
    Option String
    → Option String
    → Option String
    → Option (Option Usage)
    → Option (List ToolCall)
    → Option String
    → Option Json
    → Option DurableResponse
response_of (some text) (some model) (some provider) (some usage) (some calls) (some reason) s =
    some (record {
      text = text;
      model = model;
      provider = provider;
      usage = usage;
      tool_calls = calls;
      finish_reason = reason;
      structured = s;
    })
response_of _ _ _ _ _ _ s = none

-- `json.Unmarshal` of an object into a `DurableResponse`
unfoldable pub decode_response : Fields → Option DurableResponse
unfolding decode_calls
decode_response fs =
    response_of (text_in (get_field "text" fs)) (text_in (get_field "model" fs))
      (text_in (get_field "provider" fs)) (usage_in (get_field "usage" fs))
      (calls_in (get_field "tool_calls" fs)) (text_in (get_field "finish_reason" fs))
      (get_field "structured" fs)
