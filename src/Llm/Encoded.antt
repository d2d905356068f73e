-- ===== src/Llm/Encoded.antt =====
-- llm/response.go: the encoding of an answer and what is read back of it.
use romancy.Base.{
  String, ◌≡◌, refl, sym, ap, subst, ◌∙◌, false, Option, none, some, List, [], ◌∷◌, ◌≟◌, same,
  arith,
}
use romancy.Json.{
  Json, null, str, obj, Items, nil, cons, Fields, end, field, get_field, Value, encodable,
  unencodable, marshal,
}
use romancy.Llm.Answer.{
  ToolCall, Usage, DurableResponse, optional_field, text_json, usage_json, calls_json, call_json,
  with_call, encode_calls, response_fields, response_value, encode_response, text_in, usage_in,
  call_in, prepended, decode_calls, calls_in, response_of, decode_response,
}

-- A field is found past another one, and at its place.
field-other :
    (key k : String) (o : Option Json) (rest : Fields)
    → (key ≟ k) ≡ false
    → get_field key (optional_field k o rest) ≡ get_field key rest
unfolding get_field
field-other key k none rest e = refl
field-other key k (some j) rest e = ground arith

field-found :
    (key : String) (o : Option Json) (rest : Fields)
    → get_field key rest ≡ none
    → get_field key (optional_field key o rest) ≡ o
unfolding get_field
field-found key none rest e = e
field-found key (some j) rest e = ground arith

text_in-text_json : (s : String) → text_in (text_json s) ≡ some s
text_in-text_json s = ground (arith)

usage_in-usage_json : (u : Option Usage) → usage_in (usage_json u) ≡ some u
unfolding get_field same
usage_in-usage_json none = refl
usage_in-usage_json (some u) = refl

-- One call more, once its arguments and the other calls are encoded.
decode_calls-with_call :
    (c : ToolCall) (cs : List ToolCall) (v : Value) (rest : Option Items) (items : Items)
    → c.arguments ≡ v
    → ((others : Items) → rest ≡ some others → decode_calls others ≡ some cs)
    → with_call c (marshal v) rest ≡ some items
    → decode_calls items ≡ some (c ∷ cs)
unfolding decode_calls get_field same
decode_calls-with_call c cs unencodable rest items a ih e = cc
decode_calls-with_call c cs (encodable j) none items a ih e = cc
decode_calls-with_call c cs (encodable j) (some others) items a ih e =
    subst (λ x. decode_calls x ≡ some (c ∷ cs)) (ap (λ o. elim o [ none ↦ nil | some x ↦ x ]) e)
      (ap (prepended (call_in (call_json c j))) (ih others refl)
        ∙ ap (λ v. some (record c { arguments = v } ∷ cs)) (sym a))

decode_calls-encode_calls :
    (cs : List ToolCall) (items : Items)
    → encode_calls cs ≡ some items
    → decode_calls items ≡ some cs
unfolding encode_calls decode_calls
decode_calls-encode_calls [] nil e = refl
decode_calls-encode_calls [] (cons j items) e = cc
decode_calls-encode_calls (c ∷ cs) items e =
    decode_calls-with_call c cs c.arguments (encode_calls cs) items refl
      (decode_calls-encode_calls cs) e

calls_in-calls_json :
    (cs : List ToolCall) (items : Items)
    → encode_calls cs ≡ some items
    → calls_in (calls_json items) ≡ some cs
unfolding decode_calls
calls_in-calls_json cs nil e = decode_calls-encode_calls cs nil e
calls_in-calls_json cs (cons j items) e = decode_calls-encode_calls cs (cons j items) e

-- The optional fields of an answer, in the order in which they are written.
module _ (text : Json) (m p u c f s : Option Json) where
  abbrev from_structured : Fields
  from_structured = optional_field "structured" s end

  abbrev from_finish_reason : Fields
  from_finish_reason = optional_field "finish_reason" f from_structured

  abbrev from_tool_calls : Fields
  from_tool_calls = optional_field "tool_calls" c from_finish_reason

  abbrev from_usage : Fields
  from_usage = optional_field "usage" u from_tool_calls

  abbrev from_provider : Fields
  from_provider = optional_field "provider" p from_usage

  abbrev from_model : Fields
  from_model = optional_field "model" m from_provider

  -- A key that is none of the later ones is not found among them.
  past_structured :
      (key : String) → (key ≟ "structured") ≡ false → get_field key from_structured ≡ none
  unfolding get_field
  past_structured key e5 = field-other key "structured" s _ e5 ∙ refl

  past_finish_reason :
      (key : String)
      → (key ≟ "finish_reason") ≡ false
      → (key ≟ "structured") ≡ false
      → get_field key from_finish_reason ≡ none
  past_finish_reason key e4 e5 = field-other key "finish_reason" f _ e4 ∙ past_structured key e5

  past_tool_calls :
      (key : String)
      → (key ≟ "tool_calls") ≡ false
      → (key ≟ "finish_reason") ≡ false
      → (key ≟ "structured") ≡ false
      → get_field key from_tool_calls ≡ none
  past_tool_calls key e3 e4 e5 = field-other key "tool_calls" c _ e3 ∙ past_finish_reason key e4 e5

  past_usage :
      (key : String)
      → (key ≟ "usage") ≡ false
      → (key ≟ "tool_calls") ≡ false
      → (key ≟ "finish_reason") ≡ false
      → (key ≟ "structured") ≡ false
      → get_field key from_usage ≡ none
  past_usage key e2 e3 e4 e5 = field-other key "usage" u _ e2 ∙ past_tool_calls key e3 e4 e5

  past_provider :
      (key : String)
      → (key ≟ "provider") ≡ false
      → (key ≟ "usage") ≡ false
      → (key ≟ "tool_calls") ≡ false
      → (key ≟ "finish_reason") ≡ false
      → (key ≟ "structured") ≡ false
      → get_field key from_provider ≡ none
  past_provider key e1 e2 e3 e4 e5 = field-other key "provider" p _ e1 ∙ past_usage key e2 e3 e4 e5

  found_model : get_field "model" (field "text" text from_model) ≡ m
  unfolding get_field same
  found_model = field-found "model" m _ (past_provider "model" refl refl refl refl refl)

  found_provider : get_field "provider" (field "text" text from_model) ≡ p
  unfolding get_field same
  found_provider =
      field-other "provider" "model" m _ refl
      ∙ field-found "provider" p _ (past_usage "provider" refl refl refl refl)

  found_usage : get_field "usage" (field "text" text from_model) ≡ u
  unfolding get_field same
  found_usage =
      field-other "usage" "model" m _ refl
      ∙ field-other "usage" "provider" p _ refl
      ∙ field-found "usage" u _ (past_tool_calls "usage" refl refl refl)

  found_tool_calls : get_field "tool_calls" (field "text" text from_model) ≡ c
  unfolding get_field same
  found_tool_calls =
      field-other "tool_calls" "model" m _ refl
      ∙ field-other "tool_calls" "provider" p _ refl
      ∙ field-other "tool_calls" "usage" u _ refl
      ∙ field-found "tool_calls" c _ (past_finish_reason "tool_calls" refl refl)

  found_finish_reason : get_field "finish_reason" (field "text" text from_model) ≡ f
  unfolding get_field same
  found_finish_reason =
      field-other "finish_reason" "model" m _ refl
      ∙ field-other "finish_reason" "provider" p _ refl
      ∙ field-other "finish_reason" "usage" u _ refl
      ∙ field-other "finish_reason" "tool_calls" c _ refl
      ∙ field-found "finish_reason" f _ (past_structured "finish_reason" refl)

  found_structured : get_field "structured" (field "text" text from_model) ≡ s
  unfolding get_field same
  found_structured =
      field-other "structured" "model" m _ refl
      ∙ field-other "structured" "provider" p _ refl
      ∙ field-other "structured" "usage" u _ refl
      ∙ field-other "structured" "tool_calls" c _ refl
      ∙ field-other "structured" "finish_reason" f _ refl
      ∙ field-found "structured" s _ refl

all_read :
    (r : DurableResponse) (a b c f : Option String) (u : Option (Option Usage))
    (cs : Option (List ToolCall)) (x : Option Json)
    → a ≡ some r.text
    → b ≡ some r.model
    → c ≡ some r.provider
    → u ≡ some r.usage
    → cs ≡ some r.tool_calls
    → f ≡ some r.finish_reason
    → x ≡ r.structured
    → response_of a b c u cs f x ≡ some r
all_read r a b c f u cs x ea eb ec eu ecs ef ex = rw (ea, eb, ec, eu, ecs, ef, ex) refl

pub decode_fields :
    (r : DurableResponse) (items : Items)
    → encode_calls r.tool_calls ≡ some items
    → decode_response (response_fields r items) ≡ some r
unfolding decode_response get_field same
decode_fields r items e =
    all_read r _ _ _ _ _ _ _ (ap text_in text_at)
      (ap text_in (
          found_model (str r.text) (text_json r.model) (text_json r.provider) (usage_json r.usage)
            (calls_json items) (text_json r.finish_reason) r.structured)
        ∙ text_in-text_json r.model)
      (ap text_in (
          found_provider (str r.text) (text_json r.model) (text_json r.provider)
            (usage_json r.usage) (calls_json items) (text_json r.finish_reason) r.structured)
        ∙ text_in-text_json r.provider)
      (ap usage_in (
          found_usage (str r.text) (text_json r.model) (text_json r.provider) (usage_json r.usage)
            (calls_json items) (text_json r.finish_reason) r.structured)
        ∙ usage_in-usage_json r.usage)
      (ap calls_in (
          found_tool_calls (str r.text) (text_json r.model) (text_json r.provider)
            (usage_json r.usage) (calls_json items) (text_json r.finish_reason) r.structured)
        ∙ calls_in-calls_json r.tool_calls items e)
      (ap text_in (
          found_finish_reason (str r.text) (text_json r.model) (text_json r.provider)
            (usage_json r.usage) (calls_json items) (text_json r.finish_reason) r.structured)
        ∙ text_in-text_json r.finish_reason)
      (found_structured (str r.text) (text_json r.model) (text_json r.provider) (usage_json r.usage)
        (calls_json items) (text_json r.finish_reason) r.structured)
  where
    text_at : get_field "text" (response_fields r items) ≡ some (str r.text)
    text_at = refl

-- What is recorded of an answer is decoded into it.
pub encode_response-decoded :
    (r : DurableResponse) (j : Json)
    → encode_response r ≡ encodable j
    → (fs : Fields) × (j ≡ obj fs) × (decode_response fs ≡ some r)
unfolding encode_response
encode_response-decoded r j e = go (encode_calls r.tool_calls) refl e
  where
    go :
        (rest : Option Items)
        → encode_calls r.tool_calls ≡ rest
        → response_value r rest ≡ encodable j
        → (fs : Fields) × (j ≡ obj fs) × (decode_response fs ≡ some r)
    go none eq e' = cc
    go (some items) eq e' = (
      response_fields r items,
      sym (ap (λ v. elim v [ encodable x ↦ x | unencodable ↦ null ]) e'),
      decode_fields r items eq,
    )
