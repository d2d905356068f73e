-- ===== src/Storage/History.antt =====
-- internal/storage/sqlite.go, the history manager and the history archive, and
-- internal/storage/history_iterator.go.
pub mod Iterator
pub mod Replayed
pub mod Numbered
pub mod Kept
use romancy.Base.{
  String, ℕ, ◌+◌, Bool, true, false, Option, none, some, List, [], ◌∷◌, ◌++◌, ltb, leb, ◌==◌, ◌≟◌,
  ◌&&◌, zero, suc, length, select, reject, any, take, if◌then◌else◌,
}
use romancy.Errors.{Error, Result, ok, err, sql_error}
use romancy.Storage.Models.{Db, HistoryEvent}
use romancy.Storage.World.{M, World, pure, ◌>>=◌, ◌>>◌, statement, query, exec_, now}

abbrev pub of_instance : String → HistoryEvent → Bool
of_instance instance_id h = h.instance_id ≟ instance_id

abbrev pub same_activity : String → String → HistoryEvent → Bool
same_activity instance_id activity_id h =
    (h.instance_id ≟ instance_id) && (h.activity_id ≟ activity_id)

-- The row that an insert adds, with the next number of the table.
abbrev pub add_event : ℕ → HistoryEvent → Db → Db
add_event t event d = record d {
  history = d.history ++ record event { id = d.next_history_id; created_at = t } ∷ [];
  next_history_id = suc d.next_history_id;
}

-- `ON CONFLICT (instance_id, activity_id) DO NOTHING`: the first event of an activity stays.
abbrev pub add_new_event : ℕ → HistoryEvent → Db → Db
add_new_event t event d =
    if any (same_activity event.instance_id event.activity_id) d.history
    then d
    else add_event t event d

unfoldable pub append_history : HistoryEvent → M (Unit {0})
append_history event = do t ← now; exec_ (add_new_event t event)

-- The events after a number; the table holds them by rising number, which is the query's order.
abbrev pub events_after : String → ℕ → Db → List HistoryEvent
events_after instance_id after_id d =
    select (λ h. of_instance instance_id h && ltb after_id h.id) d.history

abbrev pub page : ℕ → List HistoryEvent → List HistoryEvent × Bool
page limit rows =
    let has_more = ltb limit (length rows) in
    ((if has_more then take limit rows else rows), has_more)

-- One row more than the limit is read, to see whether there are more.
unfoldable pub get_history_paginated : String → ℕ → ℕ → M (List HistoryEvent × Bool)
get_history_paginated instance_id after_id limit =
    query (λ d. page limit (take (suc limit) (events_after instance_id after_id d)))

unfoldable pub get_history_count : String → M ℕ
get_history_count instance_id = query (λ d. length (select (of_instance instance_id) d.history))

-- The insert names two columns that not every schema has; without them the statement is an error.
abbrev pub copy_to_archive : String → Db → Result (Unit {0}) × Db
copy_to_archive instance_id d =
    if d.archive_has_original
    then (ok tt, record d { archive = d.archive ++ select (of_instance instance_id) d.history })
    else (err sql_error, d)

unfoldable pub archive_history : String → M (Unit {0})
archive_history instance_id = do
  statement (copy_to_archive instance_id)
  exec_ λ d. record d { history = reject (of_instance instance_id) d.history }

-- In the order of `original_id`, which is the order in which the rows were archived.
unfoldable pub get_archived_history : String → M (List HistoryEvent)
get_archived_history instance_id = statement λ d.
    if d.archive_has_original
    then (ok (select (of_instance instance_id) d.archive), d)
    else (err sql_error, d)
