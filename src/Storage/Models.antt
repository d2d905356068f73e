-- ===== src/Storage/Models.antt =====
-- internal/storage/models.go, and the tables of
-- internal/migrations/sql/sqlite/20251217000000_initial_schema.sql. A column that may be NULL is
-- an `Option`. A `TEXT` timestamp is its number of seconds; the one of a compensation has
-- milliseconds. The columns `event_data_binary`, `data_binary`, `last_error` and
-- `continued_from`, which no modelled operation reads, are left out.
use romancy.Base.{String, ℕ, Bool, true, Option, List, []}
use romancy.Json.{Json}

pub data WorkflowStatus : Type 0 where
  running completed failed cancelled : WorkflowStatus
  waiting_for_event waiting_for_timer waiting_for_message : WorkflowStatus
  recurred compensating : WorkflowStatus

pub data HistoryEventType : Type 0 where
  activity_completed activity_failed event_received timer_expired : HistoryEventType
  channel_message_received message_timeout : HistoryEventType
  compensation_executed compensation_failed : HistoryEventType
  workflow_failed workflow_cancelled : HistoryEventType

pub record WorkflowInstance : Type 0 where
  pub instance_id : String
  pub workflow_name : String
  pub framework : String
  pub status : WorkflowStatus
  pub input_data : Json
  pub output_data : Option Json
  pub current_activity_id : Option String
  pub source_hash : String
  pub owner_service : String
  pub locked_by : Option String
  pub locked_at : Option ℕ
  pub lock_expires_at : Option ℕ
  pub started_at : ℕ
  pub updated_at : ℕ

pub record HistoryEvent : Type 0 where
  pub id : ℕ
  pub instance_id : String
  pub activity_id : String
  pub event_type : HistoryEventType
  pub event_data : Json
  pub data_type : String
  pub created_at : ℕ

pub record TimerSubscription : Type 0 where
  pub id : ℕ
  pub instance_id : String
  pub timer_id : String
  pub expires_at : ℕ
  pub activity_id : String

pub data OutboxStatus : Type 0 where
  pending processing published failed : OutboxStatus

pub record OutboxEvent : Type 0 where
  pub event_id : String
  pub event_type : String
  pub event_source : String
  pub event_data : Json
  pub content_type : String
  pub status : OutboxStatus
  pub retry_count : ℕ
  pub published_at : Option ℕ
  pub created_at : ℕ

pub record CompensationEntry : Type 0 where
  pub id : ℕ
  pub instance_id : String
  pub activity_id : String
  pub activity_name : String
  pub args : Json
  pub created_at : ℕ

pub data ChannelMode : Type 0 where
  broadcast competing direct : ChannelMode

pub record ChannelMessage : Type 0 where
  pub id : ℕ
  pub channel : String
  pub message_id : String
  pub payload : Json
  pub metadata : Option Json
  pub published_at : ℕ

pub record ChannelSubscription : Type 0 where
  pub instance_id : String
  pub channel : String
  pub mode : ChannelMode
  pub timeout_at : Option ℕ
  pub activity_id : Option String

pub record ChannelDeliveryCursor : Type 0 where
  pub instance_id : String
  pub channel : String
  pub last_delivered_id : ℕ

pub record ChannelMessageClaim : Type 0 where
  pub message_id : String
  pub instance_id : String

pub record GroupMembership : Type 0 where
  pub instance_id : String
  pub group_name : String

pub record SystemLock : Type 0 where
  pub lock_name : String
  pub locked_by : String
  pub locked_at : ℕ
  pub lock_expires_at : ℕ

pub record Db : Type 0 where
  pub instances : List WorkflowInstance
  pub history : List HistoryEvent
  pub next_history_id : ℕ
  pub archive : List HistoryEvent
  -- whether `workflow_history_archive` has the columns `original_id` and `original_created_at`:
  -- true of the tables that internal/storage/test_helper.go makes, false of the migrations'
  pub archive_has_original : Bool
  pub timers : List TimerSubscription
  pub next_timer_id : ℕ
  pub outbox : List OutboxEvent
  pub compensations : List CompensationEntry
  pub next_compensation_id : ℕ
  pub messages : List ChannelMessage
  pub next_message_id : ℕ
  pub subscriptions : List ChannelSubscription
  pub cursors : List ChannelDeliveryCursor
  pub claims : List ChannelMessageClaim
  pub memberships : List GroupMembership
  pub system_locks : List SystemLock

abbrev pub no_rows : Db
no_rows = record {
  instances = [];
  history = [];
  next_history_id = 1;
  archive = [];
  archive_has_original = true;
  timers = [];
  next_timer_id = 1;
  outbox = [];
  compensations = [];
  next_compensation_id = 1;
  messages = [];
  next_message_id = 1;
  subscriptions = [];
  cursors = [];
  claims = [];
  memberships = [];
  system_locks = [];
}
