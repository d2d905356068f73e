-- ===== src/Storage/Outbox.antt =====
-- internal/storage/sqlite.go, the outbox manager.
use romancy.Base.{
  String, ℕ, ◌+◌, Bool, true, false, none, some, List, [], ◌∷◌, ◌++◌, leb, ltb, ◌≟◌, ◌&&◌, select,
  reject, any, take, update, if◌then◌else◌, ◌-◌,
}
use romancy.Errors.{ok, err, unique_violation}
use romancy.Storage.Models.{Db, OutboxEvent, OutboxStatus, pending, published, failed}
use romancy.Storage.World.{M, ◌>>=◌, statement, query, exec_, now}

abbrev pub is_event : String → OutboxEvent → Bool
is_event event_id e = e.event_id ≟ event_id

abbrev pub is_pending : OutboxStatus → Bool
is_pending pending = true
is_pending _ = false

abbrev pub is_published : OutboxStatus → Bool
is_published published = true
is_published _ = false

-- `event_id` is the primary key; `retry_count` and `created_at` take the defaults of the table.
unfoldable pub add_outbox_event : OutboxEvent → M (Unit {0})
add_outbox_event e = do
  t ← now
  statement λ d. if any (is_event e.event_id) d.outbox then (err unique_violation, d) else (
    ok tt,
    record d {
      outbox = d.outbox ++ record e { retry_count = 0; published_at = none; created_at = t } ∷ [];
    },
  )

unfoldable pub insert_by_creation : OutboxEvent → List OutboxEvent → List OutboxEvent
insert_by_creation e [] = e ∷ []
insert_by_creation e (f ∷ rows) =
    if leb e.created_at f.created_at then e ∷ f ∷ rows else f ∷ insert_by_creation e rows

unfoldable pub order_by_creation : List OutboxEvent → List OutboxEvent
unfolding insert_by_creation
order_by_creation [] = []
order_by_creation (e ∷ rows) = insert_by_creation e (order_by_creation rows)

unfoldable pub get_pending_outbox_events : ℕ → M (List OutboxEvent)
unfolding order_by_creation
get_pending_outbox_events limit =
    query (λ d. take limit (order_by_creation (select (λ e. is_pending e.status) d.outbox)))

abbrev pub set_outbox : String → (OutboxEvent → OutboxEvent) → Db → Db
set_outbox event_id f d = record d { outbox = update (is_event event_id) f d.outbox }

unfoldable pub mark_outbox_event_sent : String → M (Unit {0})
mark_outbox_event_sent event_id = do
  t ← now
  exec_ (set_outbox event_id (λ e. record e { status = published; published_at = some t }))

unfoldable pub mark_outbox_event_failed : String → M (Unit {0})
mark_outbox_event_failed event_id = exec_ (set_outbox event_id (λ e. record e { status = failed }))

unfoldable pub increment_outbox_attempts : String → M (Unit {0})
increment_outbox_attempts event_id =
    exec_ (set_outbox event_id (λ e. record e { retry_count = e.retry_count + 1 }))

-- `older_than` in seconds; a threshold before 1970 selects nothing, as 0 does.
unfoldable pub cleanup_old_outbox_events : ℕ → M (Unit {0})
cleanup_old_outbox_events older_than = do
  t ← now
  exec_ λ d. record d {
    outbox = reject (λ e. is_published e.status && ltb e.created_at (t - older_than)) d.outbox;
  }
