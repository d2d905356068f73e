-- ===== src/Saga.antt =====
-- The compensations of a failed workflow: `executeCompensations` and its helpers in
-- internal/replay/engine.go. compensation/executor.go and app.go have copies of the search of the
-- history and of the record of a result, and loops of their own, which are in App/Cancel.
pub mod Paging
pub mod Lifo
use romancy.Base.{
  String, ◌<>◌, ℕ, ◌+◌, Bool, true, false, Option, none, some, List, [], ◌∷◌, ◌++◌, ◌==◌, zero, suc,
  itoa, any, length, ite, same, is_some, if◌then◌else◌,
}
use romancy.Json.{Json, Fields, num, str, obj, field, end, as_number, member}
use romancy.Errors.{Error, Result, ok, err, wrap, message, error_text}
use romancy.Storage.Models.{
  HistoryEvent, HistoryEventType, compensation_executed, compensation_failed, CompensationEntry,
}
use romancy.Storage.History.{get_history_paginated, append_history}
use romancy.Storage.Compensations.{get_compensations, add_compensation}
use romancy.Storage.World.{
  World, M, Call, compensation, Outside, pure, raise, in_context, ignore, called, ◌>>=◌, ◌>>◌,
}

abbrev pub is_compensation_event : HistoryEventType → Bool
is_compensation_event compensation_executed = true
is_compensation_event compensation_failed = true
is_compensation_event _ = false

-- The `compensation_id` of an event's data, where it is a number.
abbrev pub compensation_id : Json → Option ℕ
compensation_id event_data = as_number (member "compensation_id" event_data)

abbrev pub with_id : Option ℕ → List ℕ → List ℕ
with_id none ids = ids
with_id (some n) ids = n ∷ ids

-- The set `executed`, as the list of its members.
unfoldable pub executed_ids : List HistoryEvent → List ℕ
executed_ids [] = []
executed_ids (h ∷ hs) =
    let ids = executed_ids hs in
    if is_compensation_event h.event_type then with_id (compensation_id h.event_data) ids else ids

-- `afterID` after the loop over a page.
abbrev pub last_id : ℕ → List HistoryEvent → ℕ
last_id after_id [] = after_id
last_id after_id (h ∷ hs) = last_id h.id hs

-- The members that a page adds to those of the later pages.
abbrev pub joined :
    List HistoryEvent → Option (Result (List ℕ) × World) → Option (Result (List ℕ) × World)
joined events none = none
joined events (some (ok ids, v)) = some (ok (executed_ids events ++ ids), v)
joined events (some (err e, v)) = some (err e, v)

-- What the loop does with a page, given the rest of the loop.
abbrev pub more_pages :
    (ℕ → World → Option (Result (List ℕ) × World))
    → ℕ
    → Result (List HistoryEvent × Bool) × World
    → Option (Result (List ℕ) × World)
more_pages rest after_id (err e, w) = some (err e, w)
more_pages rest after_id (ok (events, false), w) = some (ok (executed_ids events), w)
more_pages rest after_id (ok (events, true), w) = joined events (rest (last_id after_id events) w)

-- `getExecutedCompensationIDs`, by pages of 100; `none` means that the fuel ran out.
unfoldable pub executed_from : ℕ → String → ℕ → World → Option (Result (List ℕ) × World)
executed_from zero id after_id w = none
executed_from (suc fuel) id after_id w =
    more_pages (executed_from fuel id) after_id (get_history_paginated id after_id 100 w)

-- The data of a result, and of a failure with a message that is not empty.
abbrev pub result_fields : CompensationEntry → Fields → Fields
result_fields entry rest = field "compensation_id" (num entry.id) (
    field "activity_id" (str entry.activity_id)
      (field "activity_name" (str entry.activity_name) rest))

abbrev pub result_data : CompensationEntry → String → Json
result_data entry error_msg =
    ite (same error_msg "") (obj (result_fields entry end))
      (obj (result_fields entry (field "error" (str error_msg) end)))

abbrev pub result_event : String → CompensationEntry → Bool → String → HistoryEvent
result_event id entry success error_msg = record {
  id = 0;
  instance_id = id;
  activity_id = "compensation:" <> itoa entry.id;
  event_type = if success then compensation_executed else compensation_failed;
  event_data = result_data entry error_msg;
  data_type = "json";
  created_at = 0;
}

unfoldable pub record_compensation_result :
    String → CompensationEntry → Bool → String → M (Unit {0})
record_compensation_result id entry success error_msg =
    append_history (result_event id entry success error_msg)

-- Which error the loop reports: the first one, with the entry's activity, in the engine.
abbrev pub first_error : String → Option Error → Error → Option Error
first_error activity_id (some e) later = some e
first_error activity_id none e = some (wrap ("compensation " <> (activity_id <> " failed")) e)

-- What the loop knows after the runner has returned.
abbrev pub noted : String → CompensationEntry → Option Error → Result (Unit {0}) → M (Option Error)
unfolding record_compensation_result
noted id entry first (ok _) = do ignore (record_compensation_result id entry true ""); pure first
noted id entry first (err e) = do
  ignore (record_compensation_result id entry false (error_text e))
  pure (first_error entry.activity_id first e)

-- The result of a call that may fail, as a value: `execErr := runner(...)`.
unfoldable pub attempt : M (Unit {0}) → M (Result (Unit {0}))
attempt m w = let (r, v) = m w in (ok r, v)

module _ (o : Outside) where
  unfoldable pub run_compensation : CompensationEntry → M (Unit {0})
  run_compensation entry =
      called (compensation entry.activity_name entry.args)
        (o.compensate entry.activity_name entry.args)

  -- The loop over the entries, the newest first.
  unfoldable pub run_entries :
      String → List ℕ → List CompensationEntry → Option Error → M (Option Error)
  run_entries id executed [] first = pure first
  run_entries id executed (entry ∷ entries) first =
      if any (λ n. n == entry.id) executed then run_entries id executed entries first else (do
        r ← attempt (run_compensation entry)
        first' ← noted id entry first r
        run_entries id executed entries first')

-- A loop that has fuel to spare, as a method; running out is an error that no run meets.
abbrev pub with_fuel : {A : Type 0} → World → Option (Result A × World) → Result A × World
with_fuel w none = (err (message "out of fuel"), w)
with_fuel w (some out) = out

-- A page takes an event at least, so one round more than there are rows is enough.
unfoldable pub get_executed_compensation_ids : String → M (List ℕ)
get_executed_compensation_ids id w = with_fuel w (executed_from (suc (length w.db.history)) id 0 w)

abbrev pub raise_first : Option Error → M (Unit {0})
raise_first none = pure tt
raise_first (some e) = raise e

-- `executeCompensations` of the engine. `has_runner` is whether `SetCompensationRunner` was called.
abbrev pub run_pending : Outside → Bool → String → List CompensationEntry → M (Unit {0})
run_pending o has_runner id [] = pure tt
run_pending o false id (entry ∷ entries) = pure tt
run_pending o true id (entry ∷ entries) = do
  executed ← in_context "failed to get executed compensations" (get_executed_compensation_ids id)
  first ← run_entries o id executed (entry ∷ entries) none
  raise_first first

unfoldable pub execute_compensations : Outside → Bool → String → M (Unit {0})
execute_compensations o has_runner id = do
  entries ← in_context "failed to get compensations" (get_compensations id)
  run_pending o has_runner id entries
