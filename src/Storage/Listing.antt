-- ===== src/Storage/Listing.antt =====
-- internal/storage/sqlite.go, `ListInstances`, and the filters of internal/storage/json_path.go.
-- The text of the query is modelled by what its conditions select; the ones on the input of a
-- workflow, which are built from the caller's paths, are texts.
pub mod Path
pub mod Worded
pub mod Safe
pub mod Ordered
pub mod Token
pub mod Pages
pub mod Paged
use romancy.Base.{
  String, ◌<>◌, ℕ, ◌+◌, zero, suc, ◌/◌, Bool, true, false, Option, none, some, List, [], ◌∷◌, ltb,
  ◌==◌, ◌≟◌, ◌&&◌, ◌||◌, ite, same, is_some, map, select, take, drop, length, has_prefix, text_lt,
  order_rows, if◌then◌else◌,
}
use Prim.Native.Char.{Char}
use romancy.Json.{Json, null, bool, num, str}
use romancy.Json.Reread.{nearest_float}
use romancy.Errors.{Error, Result, ok, err, wrap, message}
use romancy.Storage.Models.{
  WorkflowInstance, WorkflowStatus, running, completed, failed, cancelled, waiting_for_event,
  waiting_for_timer, waiting_for_message, recurred, compensating,
}
use romancy.Storage.Instances.{limit_or}
use romancy.Storage.World.{M, pure, raise, ◌>>=◌, query}
use romancy.Storage.Listing.Path.{matches_path}

-- What the engine and the standard library make of texts: SQL's `LIKE` on lowered texts, a condition
-- with its arguments on the input of an instance, the default format of a value, a quoted text, and
-- the format of a time, given in seconds, with its parser.
pub record Texts : Type 0 where
  pub like : (text pattern : String) → Bool
  pub satisfies : (condition : String) (args : List Json) (input : Json) → Bool
  pub show : Json → String
  pub quote : String → String
  pub format : ℕ → String
  pub parse : String → Option ℕ

-- The text of a status.
abbrev pub status_text : WorkflowStatus → String
status_text running = "running"
status_text completed = "completed"
status_text failed = "failed"
status_text cancelled = "cancelled"
status_text waiting_for_event = "waiting_for_event"
status_text waiting_for_timer = "waiting_for_timer"
status_text waiting_for_message = "waiting_for_message"
status_text recurred = "recurred"
status_text compensating = "compensating"

-- `ListInstancesOptions`; a limit of 0 or less is 0; a filter
-- that is absent is the empty text. The
-- times are in nanoseconds; the filters on the input are a map.
pub record ListInstancesOptions : Type 0 where
  pub limit : ℕ
  pub page_token : String
  pub status_filter : String
  pub workflow_name_filter : String
  pub instance_id_filter : String
  pub started_after : Option ℕ
  pub started_before : Option ℕ
  pub input_filters : List (String × Json)
  pub status : String
  pub workflow_name : String

-- `ValidateJSONPath`
unfoldable pub validate_json_path : Texts → String → Result (Unit {0})
unfolding matches_path
validate_json_path texts path =
    if path ≟ ""
    then err (message "empty JSON path")
    else if matches_path path
    then ok tt
    else err (
        message (
          "invalid JSON path: "
          <> (texts.quote path <> " (only alphanumeric, underscore, and dot allowed)")))

-- `SQLiteDriver.JSONExtract`
unfoldable pub json_extract : String → String → String
json_extract column path = "json_extract(" <> (column <> (", '$." <> (path <> "')")))

-- `SQLiteDriver.JSONCompare`; a number is one of `float64`, `int` and `int64`, and is
-- converted to the first.
unfoldable pub json_compare : Texts → String → Json → String × List Json
json_compare texts expr null = ("(" <> (expr <> (" IS NULL OR " <> (expr <> " = 'null')"))), [])
json_compare texts expr (bool true) = ("(" <> (expr <> (" = 1 OR " <> (expr <> " = 'true')"))), [])
json_compare texts expr (bool false) =
    ("(" <> (expr <> (" = 0 OR " <> (expr <> " = 'false')"))), [])
json_compare texts expr (num n) = ("CAST(" <> (expr <> " AS REAL) = ?"), num (nearest_float n) ∷ [])
json_compare texts expr v = (expr <> " = ?", str (texts.show v) ∷ [])

abbrev pub Condition : Type 0
Condition = String × List Json

abbrev pub with_condition :
    Result (Unit {0}) → Condition → Result (List Condition) → Result (List Condition)
with_condition (err e) c rest = err e
with_condition (ok _) c (err e) = err e
with_condition (ok _) c (ok conditions) = ok (c ∷ conditions)

-- The loop of `BuildFilterQuery` over the sorted paths.
unfoldable pub build_conditions : Texts → List (String × Json) → Result (List Condition)
build_conditions texts [] = ok []
build_conditions texts ((path, value) ∷ filters) =
    with_condition (validate_json_path texts path)
      (json_compare texts (json_extract "input_data" path) value) (build_conditions texts filters)

abbrev pub by_path : String × Json → String × Json → Bool
by_path a b = text_lt a.0 b.0

unfoldable pub build_filter_query : Texts → List (String × Json) → Result (List Condition)
build_filter_query texts filters = build_conditions texts (order_rows by_path filters)

-- What a token says of the last row of a page: when it started, in seconds, and its id.
abbrev pub Cursor : Type 0
Cursor = ℕ × String

-- `strings.SplitN(token, "||", 2)` where that has two parts
unfoldable pub split_token : String → Option (String × String)
split_token String.[] = none
split_token (String.◌∷◌ c s) =
    if has_prefix "||" (String.◌∷◌ c s) then some ("", after_bar s) else in_front c (split_token s)
  where
    after_bar : String → String
    after_bar String.[] = ""
    after_bar (String.◌∷◌ d t) = t

    in_front : Char → Option (String × String) → Option (String × String)
    in_front d none = none
    in_front d (some (time, id)) = some (String.◌∷◌ d time, id)

abbrev pub cursor_of : Texts → Option (String × String) → Option Cursor
cursor_of texts none = none
cursor_of texts (some (time, id)) = at_time (texts.parse time)
  where
    at_time : Option ℕ → Option Cursor
    at_time none = none
    at_time (some t) = some (t, id)

-- The part on the page token; one that has not its form is ignored.
unfoldable pub parse_token : Texts → String → Option Cursor
unfolding split_token
parse_token texts token = cursor_of texts (split_token token)

-- `ORDER BY started_at DESC, instance_id DESC`
abbrev pub stands_before : WorkflowInstance → WorkflowInstance → Bool
stands_before r s =
    ltb s.started_at r.started_at
    || ((s.started_at == r.started_at) && text_lt s.instance_id r.instance_id)

-- The condition of the next page.
abbrev pub follows : Option Cursor → WorkflowInstance → Bool
follows none r = true
follows (some (t, id)) r = ltb r.started_at t || ((r.started_at == t) && text_lt r.instance_id id)

-- The columns that are read.
pub record ListedInstance : Type 0 where
  pub instance_id : String
  pub workflow_name : String
  pub status : WorkflowStatus
  pub started_at : ℕ
  pub updated_at : ℕ

abbrev pub listed : WorkflowInstance → ListedInstance
listed r = record {
  instance_id = r.instance_id;
  workflow_name = r.workflow_name;
  status = r.status;
  started_at = r.started_at;
  updated_at = r.updated_at;
}

pub record PaginationResult : Type 0 where
  pub instances : List ListedInstance
  pub next_page_token : String
  pub has_more : Bool

abbrev pub last? : List WorkflowInstance → Option WorkflowInstance
last? [] = none
last? (r ∷ []) = some r
last? (r ∷ s ∷ rows) = last? (s ∷ rows)

abbrev pub first_text : String → String → String
first_text filter deprecated = ite (same filter "") deprecated filter

module _ (texts : Texts) where
  abbrev pub has_text : String → String → Bool
  has_text filter text = ite (same filter "") true (texts.like text ("%" <> (filter <> "%")))

  abbrev pub has_status : String → WorkflowStatus → Bool
  has_status filter s = ite (same filter "") true (status_text s ≟ filter)

  abbrev pub is_after : Option ℕ → ℕ → Bool
  is_after none t = true
  is_after (some bound) t = ltb (bound / 1000000000) t

  abbrev pub is_before : Option ℕ → ℕ → Bool
  is_before none t = true
  is_before (some bound) t = ltb t (bound / 1000000000)

  abbrev pub satisfies_all : List Condition → Json → Bool
  satisfies_all [] input = true
  satisfies_all ((condition, args) ∷ rest) input =
      texts.satisfies condition args input && satisfies_all rest input

  -- The conditions of the query but the last, that of the page token.
  abbrev pub is_listed : ListInstancesOptions → List Condition → WorkflowInstance → Bool
  is_listed opts conditions r =
      (r.framework ≟ "go")
      && (has_text (first_text opts.workflow_name_filter opts.workflow_name) r.workflow_name
          && (has_status (first_text opts.status_filter opts.status) r.status
              && (has_text opts.instance_id_filter r.instance_id
                  && (is_after opts.started_after r.started_at
                      && (is_before opts.started_before r.started_at
                          && satisfies_all conditions r.input_data)))))

  -- The rows of the query, one more than the page has.
  abbrev pub listed_rows :
      ListInstancesOptions → List Condition → ℕ → List WorkflowInstance → List WorkflowInstance
  listed_rows opts conditions limit rows = take (suc limit) (
      order_rows stands_before (
        select (λ r. is_listed opts conditions r && follows (parse_token texts opts.page_token) r)
          rows))

  abbrev pub token_after : Option WorkflowInstance → String
  token_after none = ""
  token_after (some r) = texts.format r.started_at <> ("||" <> r.instance_id)

  -- What is made of the rows.
  abbrev pub page_of : ℕ → List WorkflowInstance → PaginationResult
  page_of limit rows = record {
    instances = map listed (take limit rows);
    next_page_token = if ltb limit (length rows) then token_after (last? (take limit rows)) else "";
    has_more = ltb limit (length rows);
  }

  abbrev pub list_where : ListInstancesOptions → Result (List Condition) → M PaginationResult
  list_where opts (err e) = raise (wrap "invalid input filter" e)
  list_where opts (ok conditions) = do
    rows ← query (λ d. listed_rows opts conditions (limit_or 50 opts.limit) d.instances)
    pure (page_of (limit_or 50 opts.limit) rows)

  unfoldable pub list_instances : ListInstancesOptions → M PaginationResult
  list_instances opts = list_where opts (build_filter_query texts opts.input_filters)
