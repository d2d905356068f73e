-- ===== src/Errors.antt =====
-- errors.go and internal/replay/suspend.go: the errors that callers tell apart, and the suspend
-- signals that travel as errors. `errors.As` walks the chain of `Unwrap`.
use romancy.Base.{String, ◌<>◌, itoa, ℕ, Bool, true, false, Option, none, some}
use romancy.Json.{Value}

-- internal/replay/suspend.go, `SuspendSignal`: one constructor for each `SuspendType`, with the
-- fields that its `New...Suspend` function fills.
pub data SuspendSignal : Type 0 where
  timer : (timer_id activity_id : String) (expires_at : ℕ) → SuspendSignal
  channel_message : (channel activity_id : String) (timeout : Option ℕ) → SuspendSignal
  recur : (new_input : Value) → SuspendSignal

pub data Error : Type 0 where
  -- what the SQL driver reports
  sql_error : Error
  unique_violation : Error
  -- a plain error, `errors.New` or `fmt.Errorf` with no `%w`
  message : String → Error
  -- `fmt.Errorf("...: %w", err)`
  wrap : String → Error → Error
  -- `TerminalError`
  terminal : Error → Error
  -- `RetryExhaustedError`
  retry_exhausted : (activity_name : String) (attempts : ℕ) (last_err : Error) → Error
  -- `WorkflowNotFoundError`
  not_found : (instance_id : String) → Error
  -- `ChannelMessageTimeoutError`
  message_timeout : (instance_id channel_name : String) → Error
  -- `ChannelModeConflictError`
  mode_conflict : (channel existing_mode requested_mode : String) → Error
  -- `ErrChannelNotSubscribed`, `ErrWorkflowNotCancellable`, `context.Canceled`
  not_subscribed not_cancellable cancelled : Error
  suspended : SuspendSignal → Error

-- `IsTerminalError`: the error is, or wraps, a `TerminalError`.
unfoldable pub is_terminal_error : Error → Bool
is_terminal_error (terminal e) = true
is_terminal_error (wrap s e) = is_terminal_error e
is_terminal_error (retry_exhausted name n e) = is_terminal_error e
is_terminal_error _ = false

-- `AsSuspendSignal`: the signal in the chain, if there is one.
unfoldable pub as_suspend_signal : Error → Option SuspendSignal
as_suspend_signal (suspended sig) = some sig
as_suspend_signal (terminal e) = as_suspend_signal e
as_suspend_signal (wrap s e) = as_suspend_signal e
as_suspend_signal (retry_exhausted name n e) = as_suspend_signal e
as_suspend_signal _ = none

-- `Error()`. The text of the driver's own errors is not known here; nothing compares it. The
-- formats of `SuspendSignal.Error` are left out: the engine takes a signal out before its text.
unfoldable pub error_text : Error → String
error_text sql_error = "sql: statement failed"
error_text unique_violation = "UNIQUE constraint failed"
error_text (message s) = s
error_text (wrap s e) = s <> (": " <> error_text e)
error_text (terminal e) = "terminal error: " <> error_text e
error_text (retry_exhausted name n e) =
    "retry exhausted for activity \""
    <> (name <> ("\" after " <> (itoa n <> (" attempts: " <> error_text e))))
error_text (not_found id) = "workflow instance " <> (id <> " not found")
error_text (message_timeout id channel) =
    "timeout waiting for channel message on \"" <> (channel <> ("\" (instance: " <> (id <> ")")))
error_text (mode_conflict channel existing requested) =
    "channel \""
    <> (channel
        <> ("\" is already configured as \""
            <> (existing <> ("\" mode; cannot subscribe with \"" <> (requested <> "\" mode")))))
error_text not_subscribed = "not subscribed to channel"
error_text not_cancellable = "workflow cannot be cancelled"
error_text cancelled = "context canceled"
error_text (suspended sig) = "workflow suspended"

pub data Result {ℓ} (A : Type ℓ) : Type ℓ where
  ok : A → Result A
  err : Error → Result A
