-- ===== src/Relayer.antt =====
-- outbox/relayer.go: one batch of the outbox relayer.
pub mod Sent
pub mod Rounds
use romancy.Base.{String, ℕ, Bool, true, false, List, [], ◌∷◌, leb, length, if◌then◌else◌}
use romancy.Errors.{Error, Result, ok, err}
use romancy.Storage.Models.{OutboxEvent}
use romancy.Storage.Outbox.{
  get_pending_outbox_events, increment_outbox_attempts, mark_outbox_event_failed,
  mark_outbox_event_sent,
}
use romancy.Storage.World.{World, M, send, Outside, pure, ignore, called, ◌>>=◌, ◌>>◌}
use romancy.Saga.{attempt}

-- `event.RetryCount >= r.maxRetries`
abbrev pub is_exhausted : ℕ → OutboxEvent → Bool
is_exhausted max_retries e = leb max_retries e.retry_count

-- What follows a send: an event that was not sent is tried again with a later batch.
abbrev pub mark_if_sent : String → Result (Unit {0}) → M (Unit {0})
mark_if_sent event_id (ok _) = ignore (mark_outbox_event_sent event_id)
mark_if_sent event_id (err e) = pure tt

module _ (o : Outside) (max_retries : ℕ) where
  unfoldable pub relay_event : OutboxEvent → M (Unit {0})
  relay_event e =
      if is_exhausted max_retries e then ignore (mark_outbox_event_failed e.event_id) else (do
        ignore (increment_outbox_attempts e.event_id)
        r ← attempt (called (send e.event_id) (o.deliver e.event_id))
        mark_if_sent e.event_id r)

  -- The loop; it leaves off where the context is done or the relayer was stopped.
  unfoldable pub relay_events : List OutboxEvent → M (Unit {0})
  relay_events [] w = pure tt w
  relay_events (e ∷ events) w =
      if o.interrupts (length w.calls) then pure tt w else (relay_event e >> relay_events events) w

  unfoldable pub process_pending_events : ℕ → M ℕ
  process_pending_events batch_size = do
    events ← get_pending_outbox_events batch_size
    relay_events events
    pure (length events)
