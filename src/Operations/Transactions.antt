-- ===== src/Operations/Transactions.antt =====
-- The transactions of internal/storage/sqlite.go with their callbacks, and what `Publish` and
-- `SendTo` of channels.go do in one. A transaction lives in the context of an activity, and every
-- statement with that context goes to it, also after its end.
pub mod Deferred
use romancy.Base.{String, ◌<>◌, ℕ, Bool, true, false, Option, none, some, List, [], ◌∷◌, ◌++◌}
use romancy.Json.{Json}
use romancy.Errors.{Error, Result, ok, err, message}
use romancy.Storage.Models.{Db}
use romancy.Storage.World.{World, M, statement, in_context}
use romancy.Storage.Channels.{publish_to_channel}
use romancy.Operations.Wake.{wake_waiting_subscribers}

-- A call of `wakeWaitingSubscribers` that is put off.
pub record Wakeup : Type 0 where
  pub channel : String
  pub number : ℕ
  pub payload : Json
  pub metadata : Option Json

-- `txState` and what surrounds it: the tables as the transaction sees them are those of the world,
-- and `saved` has them as they were before it.
pub record Transaction : Type 0 where
  pub world : World
  pub saved : Db
  pub is_open : Bool
  pub callbacks : List Wakeup

abbrev pub opened : Db → Result (Unit {0}) × World → Result Transaction × World
opened saved (err e, w) = (err e, w)
opened saved (ok _, w) =
    (ok (record { world = w; saved = saved; is_open = true; callbacks = [] }), w)

unfoldable pub begin_transaction : M Transaction
begin_transaction w = opened w.db (statement (λ d. (ok tt, d)) w)

-- A method with the context of the transaction. Once that has ended its first statement fails, by
-- `sql.ErrTxDone`, and the driver is not asked.
abbrev pub method_in : {A : Type 0} → Bool → M A → World → Result A × World
method_in true m w = m w
method_in false m w = m (record w { faults = true ∷ w.faults })

unfoldable pub with_transaction : {A : Type 0} → M A → Transaction → Result A × Transaction
with_transaction m t = let (r, w) = method_in t.is_open m t.world in (r, record t { world = w })

-- `InTransaction` is about the context: it is true after the end as well.
unfoldable pub register_post_commit_callback : Wakeup → Transaction → Transaction
register_post_commit_callback c t = record t { callbacks = t.callbacks ++ c ∷ [] }

abbrev pub woken_by : Wakeup → M (Unit {0})
woken_by c = wake_waiting_subscribers "" 300 c.channel c.number c.payload c.metadata

-- The callbacks in turn; their errors are only logged.
unfoldable pub run_callbacks : List Wakeup → Transaction → Transaction
unfolding with_transaction
run_callbacks [] t = t
run_callbacks (c ∷ callbacks) t = run_callbacks callbacks (with_transaction (woken_by c) t).1

abbrev pub committed : Transaction → Result (Unit {0}) × World → Result (Unit {0}) × Transaction
committed t (err e, w) = (err e, record t { world = record w { db = t.saved }; is_open = false })
committed t (ok _, w) =
    (ok tt, run_callbacks t.callbacks (record t { world = w; saved = w.db; is_open = false }))

-- A commit that fails keeps nothing.
unfoldable pub commit_transaction : Transaction → Result (Unit {0}) × Transaction
unfolding run_callbacks
commit_transaction t = committed t (statement (λ d. (ok tt, d)) t.world)

abbrev pub undone : Transaction → Result (Unit {0}) × World → Result (Unit {0}) × Transaction
undone t (r, w) = (r, record t { world = record w { db = t.saved }; is_open = false })

unfoldable pub rollback_transaction : Transaction → Result (Unit {0}) × Transaction
rollback_transaction t = undone t (statement (λ d. (ok tt, d)) t.world)

abbrev pub put_off :
    String → Json → Option Json → Result ℕ × Transaction → Result (Unit {0}) × Transaction
put_off channel payload metadata (err e, t) = (err e, t)
put_off channel payload metadata (ok number, t) = (
  ok tt,
  register_post_commit_callback
      (record { channel = channel; number = number; payload = payload; metadata = metadata }) t,
)

-- `Publish` and `SendTo` in a transaction: the message is written, the delivery is put off.
unfoldable pub publish_in_transaction :
    String → String → Json → Option Json → Transaction → Result (Unit {0}) × Transaction
unfolding with_transaction register_post_commit_callback
publish_in_transaction context channel payload metadata t =
    put_off channel payload metadata
      (with_transaction (in_context context (publish_to_channel channel payload metadata)) t)
