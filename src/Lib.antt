-- ===== src/Lib.antt =====
-- A verification library for Romancy, a durable workflow engine: workflows run activities, each
-- result is recorded in a history, and a workflow that stops is replayed from its history. The
-- library models the storage layer, the execution of activities, the replay engine, the
-- operations of workflows and the background tasks of the runtime, with theorems on what these
-- components promise.
--
-- How the parts interact. Every component works on one SQL database through the storage interface
-- (internal/storage/storage.go). The model is of the SQLite implementation,
-- internal/storage/sqlite.go, with the locks of PostgreSQL where they are made otherwise. A
-- worker takes the lock of an instance, reads its history through the iterator, runs the
-- workflow, records results, and releases the lock. When a workflow fails, its compensations run,
-- the newest first.
--
-- The world. Storage/World.antt gives the state that a storage method runs against: the tables
-- (Storage/Models.antt, from internal/storage/models.go and internal/migrations), the clock, and
-- a list that says which of the next SQL statements the driver fails. A method is a function from
-- a world to a Go result and a world, so a theorem about any world is one about any failures of
-- the driver. The text timestamps of SQLite are numbers of seconds. What the program calls and
-- does not hold (activities, compensations, senders) is the record `Outside`, a parameter: each
-- call may answer otherwise.
--
-- Storage/Instances.antt: the instance manager of sqlite.go (CreateInstance to
--   FindResumableWorkflows).
-- Storage/Locks.antt: TryAcquireLock, ReleaseLock, RefreshLock, CleanupStaleLocks;
--   Locks/Exclusion is about taking a lock, Locks/Schedules about calls in turn.
-- Storage/History.antt: the history manager and the archive; History/Iterator is
--   internal/storage/history_iterator.go; History/Replayed is about the events that it gives.
-- History/Numbered and History/Kept are about the constraints of the history table,
--   Instances/Cancelled about CancelInstance, Channels/Claimed about the claim of a message,
--   Channels/Queue and Channels/Cursors about the queues of broadcast subscribers,
--   Instances/Recovered about stale locks, Groups/Members about groups as sets, Groups/Leased
--   about the lock of the leader.
-- Storage/Timers.antt, Outbox.antt, Compensations.antt, Channels.antt, Delivery.antt,
--   Groups.antt: the other managers of sqlite.go.
-- Storage/Listing.antt: ListInstances of sqlite.go, with internal/storage/json_path.go;
--   Listing/Path is the pattern of a path, Listing/Worded is about the text of a condition,
--   Listing/Safe is about the paths that come into a query, Listing/Ordered, Token and Pages are
--   about the rows, tokens and pages of a listing, Listing/Paged about all of it.
-- Storage/Postgres.antt: the locks of internal/storage/postgres.go, where Postgres/Raced has two
--   workers at one lock.
-- Errors.antt: errors.go and internal/replay/suspend.go. Json.antt: the values of encoding/json;
--   Json/Reread is what becomes of a value that is decoded into an `any` and encoded again, where
--   a number above 2 ^ 53 may change.
-- Saga.antt: the compensations in internal/replay/engine.go; Saga/Paging is about the search of
--   the history, Saga/Lifo about the run.
-- Activity.antt: activity.go with retry/policy.go, and the caches of context.go and
--   internal/replay/engine.go; Activity/Attempts is about the retry loop.
-- Replay.antt: the engine, internal/replay/engine.go: loading the history, running a workflow,
--   suspending, failing, completing. A workflow is a tree of activities and operations, so code
--   that loops for ever is left out, and ends with a result, an error or a suspend signal;
--   Replay/Recorded, Executed and Loaded relate caches and history, Replay/Repeated is about a
--   second run, Replay/Locked about the lock; Replay/Suspended is about the timer of a sleep,
--   Replay/Answered about the caches that a run starts with, Replay/Delivered and
--   Storage/Delivery/Delivers about a message that was delivered.
-- Operations.antt: events.go and channels.go. Operations/Once has the operations without an
--   answer, Wake the search for waiting subscribers, Receive is Receive, Events is WaitEvent and
--   outbox/transactional.go, Message the messages and their encodings, Modes the modes of
--   channels; Transactions has the transactions of sqlite.go with their callbacks and a publish
--   in one, Transactions/Deferred is about the deliveries that are put off; Receive/Taken is
--   about a message that is pending, Receive/Claimed about one that is claimed, Message/Roundtrip
--   about the encodings.
-- App.antt: app.go. App/Timers and App/Messages have what the background tasks do with expired
--   timers, timed-out receives, incoming events and notifications, App/Tasks the leader, the
--   backoff and the resumption of workflows, App/Cancel the cancellation and
--   compensation/executor.go, App/Events an event that comes in, App/Results the start and the
--   result of a workflow, with workflow.go. Timers/Woken, Messages/TimedOut, Tasks/Backoff,
--   Events/Waited, Results/Completed, Cancel/Compensated and Cancel/Done are about these.
-- Relayer.antt: outbox/relayer.go, one batch, and in Relayer/Rounds its loop and what it waits;
--   Relayer/Sent is about what it sends.
-- Migrations.antt: internal/migrations/migrations.go, with the text functions in Migrations/Text;
--   Migrations/Settled is about a run that comes through, Migrations/Repeated about a second one.
-- Llm.antt: the durable calls of llm/llm.go and llm/durable_call.go; Llm/Options is
--   llm/options.go, Llm/Answer is llm/response.go. Llm/Encoded is about the encoding of an
--   answer, Llm/Recorded, Replayed and Parsed about a call and the same call in a later run.
-- Tests.antt, ReplayTests.antt, AppTests.antt, MessageTests.antt, StorageTests.antt,
--   LlmTests.antt: a small database, two small workflows and a waiting one, and the theorems at
--   them.
--
-- Fuel and bounds. The loops that page through a history have fuel; one round more than the
-- instance has events is enough, since a page takes an event at least. The retry loop has fuel
-- too, since MaxAttempts 0 means no limit; where there is a limit, it is enough fuel. Receive
-- starts over where another instance was faster, on fuel; in broadcast mode one round is enough.
-- Numbers of rows are not bounded: the counters of SQLite are 64 bits wide, which no history
-- reaches.
--
-- Not modelled: the other operations of the PostgreSQL and MySQL backends, which repeat those of
-- SQLite; the HTTP handlers, hooks, options and notifications, which are input and output; the
-- agents and tools of llm, and mcp. The library that calls a language model is a parameter.
-- Columns for binary data are left out. A JSON number is a natural number. Delays and timeouts of
-- attempts are left out, and of app.go the start and stop, the tickers and the semaphores: the
-- goroutines of a batch run one after the other. The activities of Activity.antt do not publish
-- by themselves in their transaction. The runner that RegisterWorkflow makes is left out: a
-- workflow is the tree that it would run.
pub mod Base
pub mod Json
pub mod Errors
pub mod Storage
pub mod Saga
pub mod Activity
pub mod Replay
pub mod Relayer
pub mod App
pub mod AppTests
pub mod Llm
pub mod LlmTests
pub mod MessageTests
pub mod Migrations
pub mod Operations
pub mod ReplayTests
pub mod StorageTests
pub mod Tests
