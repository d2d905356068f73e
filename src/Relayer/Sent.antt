-- ===== src/Relayer/Sent.antt =====
-- Which events a batch of the relayer (outbox/relayer.go) sends.
use romancy.Base.{
  String, ℕ, ◌≡◌, refl, subst, Bool, true, false, List, [], ◌∷◌, length, reject, select, take,
  if◌then◌else◌,
}
use romancy.Errors.{Result, ok, err, sql_error}
use romancy.Storage.Models.{Db, OutboxEvent}
use romancy.Storage.Outbox.{
  is_pending, order_by_creation, get_pending_outbox_events, increment_outbox_attempts,
  mark_outbox_event_failed, mark_outbox_event_sent,
}
use romancy.Storage.World.{
  World, M, Call, send, Outside, pure, ignore, called, ◌>>=◌, ◌>>◌, exec_, query, now,
}
use romancy.Storage.World.Keeps.{statement_cases}
use romancy.Saga.{attempt}
use romancy.Relayer.{is_exhausted, mark_if_sent, relay_event, relay_events, process_pending_events}

exec_-calls : (f : Db → Db) (w : World) → (exec_ f w).1.calls ≡ w.calls
unfolding exec_
exec_-calls f w = statement_cases (λ out. out.1.calls ≡ w.calls) _ w (λ rest. refl) (λ rest. refl)

abbrev pub sent : List Call → List OutboxEvent → List Call
sent calls [] = calls
sent calls (e ∷ events) = sent (send e.event_id ∷ calls) events

-- The events that are pending, the oldest first, as many as the batch takes.
abbrev pub batch : ℕ → Db → List OutboxEvent
unfolding order_by_creation
batch n d = take n (order_by_creation (select (λ e. is_pending e.status) d.outbox))

-- A step that returns, after which these are the calls.
abbrev Makes : {A : Type 0} → List Call → Result A × World → Type 0
Makes calls (ok a, v) = v.calls ≡ calls
Makes calls (err e, v) = ⊥

mark_if_sent-Makes :
    (id : String) (r : Result (Unit {0})) (w : World) → Makes w.calls (mark_if_sent id r w)
unfolding ignore mark_outbox_event_sent ◌>>=◌ now pure
mark_if_sent-Makes id (ok x) w = exec_-calls _ w
mark_if_sent-Makes id (err e) w = refl

bind-Makes :
    {A B : Type 0} (calls calls' : List Call) (m : M A) (k : A → M B) (w : World)
    → Makes calls (m w)
    → ((a : A) (v : World) → v.calls ≡ calls → Makes calls' (k a v))
    → Makes calls' ((m >>= k) w)
unfolding ◌>>=◌
bind-Makes {A} {B} calls calls' m k w made h = go (m w).0 (m w).1 made
  where
    go :
        (r : Result A) (v : World)
        → Makes {A = A} calls (r, v)
        → Makes {A = B} calls' (elim r [ ok a ↦ k a v | err e ↦ (err e, v) ])
    go (ok a) v c = h a v c
    go (err e) v c = absurd c

increment-Makes :
    (id : String) (w : World) → Makes w.calls (ignore (increment_outbox_attempts id) w)
unfolding ignore increment_outbox_attempts
increment-Makes id w = exec_-calls _ w

fail-Makes : (id : String) (w : World) → Makes w.calls (ignore (mark_outbox_event_failed id) w)
unfolding ignore mark_outbox_event_failed
fail-Makes id w = exec_-calls _ w

module _ (o : Outside) (max_retries : ℕ) where
  relay_event-Makes :
      (e : OutboxEvent) (w : World) (b : Bool)
      → is_exhausted max_retries e ≡ b
      → Makes (if b then w.calls else send e.event_id ∷ w.calls) (relay_event o max_retries e w)
  unfolding relay_event ◌>>◌ attempt called
  relay_event-Makes e w true x = rw x (fail-Makes e.event_id w)
  relay_event-Makes e w false x = rw x (
      bind-Makes w.calls (send e.event_id ∷ w.calls) (ignore (increment_outbox_attempts e.event_id))
        _ w (increment-Makes e.event_id w)
        (λ a v c.
          bind-Makes (send e.event_id ∷ w.calls) (send e.event_id ∷ w.calls)
            (attempt (called (send e.event_id) (o.deliver e.event_id))) (mark_if_sent e.event_id) v
            (rw c refl)
            (λ r u d.
              subst (λ k. Makes k (mark_if_sent e.event_id r u)) d
                (mark_if_sent-Makes e.event_id r u))))

  relay_events-Makes :
      ((n : ℕ) → o.interrupts n ≡ false)
      → (events : List OutboxEvent) (w : World)
      → Makes
          (sent w.calls (reject (is_exhausted max_retries) events))
          (relay_events o max_retries events w)
  unfolding relay_events pure ◌>>◌
  relay_events-Makes h [] w = refl
  relay_events-Makes h (e ∷ events) w = rw (h (length w.calls)) (
      bind-Makes (if is_exhausted max_retries e then w.calls else send e.event_id ∷ w.calls) _
        (relay_event o max_retries e) (λ x. relay_events o max_retries events) w
        (relay_event-Makes e w _ refl)
        (λ a v c. next (is_exhausted max_retries e) v c (relay_events-Makes h events v)))
    where
      next :
          (b : Bool) (v : World)
          → v.calls ≡ (if b then w.calls else send e.event_id ∷ w.calls)
          → Makes
              (sent v.calls (reject (is_exhausted max_retries) events))
              (relay_events o max_retries events v)
          → Makes
              (sent w.calls (
                if b
                then reject (is_exhausted max_retries) events
                else e ∷ reject (is_exhausted max_retries) events))
              (relay_events o max_retries events v)
      next true v c m =
          subst
            (λ k.
              Makes (sent k (reject (is_exhausted max_retries) events))
                (relay_events o max_retries events v))
            c m
      next false v c m =
          subst
            (λ k.
              Makes (sent k (reject (is_exhausted max_retries) events))
                (relay_events o max_retries events v))
            c m

-- A batch that could not be read and sent nothing, or one that sent these events.
abbrev pub Relays : World → List OutboxEvent → List OutboxEvent → Result ℕ × World → Type 0
Relays w events due (ok n, v) = (n ≡ length events) × (v.calls ≡ sent w.calls due)
Relays w events due (err e, v) = (e ≡ sql_error) × (v.calls ≡ w.calls)

count-Relays :
    (events due : List OutboxEvent) (w : World) (m : M (Unit {0})) (u : World)
    → Makes (sent w.calls due) (m u)
    → Relays w events due ((m >>= λ x. pure (length events)) u)
unfolding ◌>>=◌ pure
count-Relays events due w m u made = go (m u).0 (m u).1 made
  where
    go :
        (r : Result (Unit {0})) (v : World)
        → Makes (sent w.calls due) (r, v)
        → Relays w events due (elim r [ ok a ↦ (ok (length events), v) | err e ↦ (err e, v) ])
    go (ok a) v c = (refl, c)
    go (err e) v c = absurd c

-- One batch, where nothing stops the relayer: whatever the sender and the driver answer, either the
-- batch cannot be read and nothing is sent, or each event of the batch that has tries left is sent
-- exactly once, the oldest first, no other event is sent, and the number of events is returned.
pub process_pending_events-Relays :
    (o : Outside) (max_retries batch_size : ℕ) (w : World)
    → ((n : ℕ) → o.interrupts n ≡ false)
    → Relays w
        (batch batch_size w.db)
        (reject (is_exhausted max_retries) (batch batch_size w.db))
        (process_pending_events o max_retries batch_size w)
unfolding process_pending_events get_pending_outbox_events query ◌>>=◌ ◌>>◌
process_pending_events-Relays o max_retries batch_size w h =
    let events : List OutboxEvent = batch batch_size w.db in
    statement_cases
      (λ out. Relays w events (reject (is_exhausted max_retries) events) (
        ((λ (u : World). out) >>= λ rows. relay_events o max_retries rows >> pure (length rows)) w))
      _ w (λ rest. (refl, refl))
      (λ rest.
        count-Relays events (reject (is_exhausted max_retries) events) w
          (relay_events o max_retries events) (record w { faults = rest })
          (relay_events-Makes o max_retries h events (record w { faults = rest })))
