-- ===== src/Relayer/Rounds.antt =====
-- outbox/relayer.go: the loop of the relayer and what it waits between its batches.
use romancy.Base.{
  ℕ, Bool, true, false, suc, ◌+◌, ◌*◌, ◌^◌, List, [], ◌∷◌, ltb, ◌==◌, ◌≤◌, arith, length,
  if◌then◌else◌,
}
use romancy.Errors.{Result, ok, err}
use romancy.Storage.World.{World, Outside}
use romancy.App.Tasks.{calculate_backoff}
use romancy.App.Tasks.Backoff.{calculate_backoff-bounds}
use romancy.Relayer.{process_pending_events}

-- `RelayerConfig` without the sender; the durations are in nanoseconds.
pub record RelayerConfig : Type 0 where
  pub poll_interval : ℕ
  pub batch_size : ℕ
  pub max_retries : ℕ
  pub max_backoff : ℕ

abbrev or_default : ℕ → ℕ → ℕ
or_default default x = if x == 0 then default else x

-- `NewRelayer`
unfoldable pub new_relayer : RelayerConfig → RelayerConfig
new_relayer c = record {
  poll_interval = or_default 1000000000 c.poll_interval;
  batch_size = or_default 100 c.batch_size;
  max_retries = or_default 5 c.max_retries;
  max_backoff = or_default 30000000000 c.max_backoff;
}

-- `calculateBackoff` of the relayer; a product that a duration does not hold is left out.
unfoldable pub calculate_relay_backoff : RelayerConfig → ℕ → ℕ
calculate_relay_backoff c consecutive_empty =
    if consecutive_empty == 0
    then c.poll_interval
    else (let exp : ℕ = if ltb consecutive_empty 5 then consecutive_empty else 5 in
        if ltb c.max_backoff (c.poll_interval * 2 ^ exp)
        then c.max_backoff
        else c.poll_interval * 2 ^ exp)

-- How a wait ends: by a notification, by the time, or because the relayer is stopped.
pub data WaitEnd : Type 0 where
  notified : WaitEnd
  elapsed : WaitEnd
  stopped : WaitEnd

-- The batches in a row that had no event, after one more batch.
abbrev pub next_empty : ℕ → Result ℕ → ℕ
next_empty n (err e) = 0
next_empty n (ok count) = if count == 0 then suc n else 0

-- `jitter` is what the random number adds to the wait.
module _ (jitter : ℕ → ℕ) (c : RelayerConfig) where
  abbrev wait : ℕ → ℕ
  wait n = calculate_relay_backoff c n + jitter (calculate_relay_backoff c n)

  abbrev before : ℕ → List ℕ × World → List ℕ × World
  before t (waits, v) = (t ∷ waits, v)

  -- What follows a batch; `again` is the rest of the loop.
  abbrev waited : (ℕ → World → List ℕ × World) → WaitEnd → ℕ → Result ℕ × World → List ℕ × World
  waited again notified n (r, v) = before (wait (next_empty n r)) (again 0 v)
  waited again elapsed n (r, v) = before (wait (next_empty n r)) (again (next_empty n r) v)
  waited again stopped n (r, v) = (wait (next_empty n r) ∷ [], v)

-- `jitter` has the random number of each wait, by the number of waits that follow.
module _ (o : Outside) (jitter : ℕ → ℕ → ℕ) (c : RelayerConfig) where
  -- The waits of `run`, in their order, and the world that it leaves.
  unfoldable pub run_relayer : ℕ → List WaitEnd → World → List ℕ × World
  run_relayer n [] w = ([], w)
  run_relayer n (end ∷ ends) w =
      if o.interrupts (length w.calls)
      then ([], w)
      else waited (jitter (length ends)) c (λ k v. run_relayer k ends v) end n
          (process_pending_events o c.max_retries c.batch_size w)

-- Every wait lies between the two bounds.
pub AllWithin : ℕ → ℕ → List ℕ → Type 0
AllWithin low high [] = Unit
AllWithin low high (t ∷ ts) = ((low ≤ t) × (t ≤ high)) × AllWithin low high ts

relay_backoff_within :
    (c : RelayerConfig) (n : ℕ)
    → c.poll_interval ≤ c.max_backoff
    → (c.poll_interval ≤ calculate_relay_backoff c n)
      × (calculate_relay_backoff c n ≤ c.max_backoff)
unfolding calculate_backoff calculate_relay_backoff
relay_backoff_within c n h =
    let bounds = calculate_backoff-bounds c.poll_interval n c.max_backoff h in (bounds.0, bounds.1)

wait_within :
    (jitter : ℕ → ℕ) (most : ℕ) (c : RelayerConfig) (n : ℕ)
    → c.poll_interval ≤ c.max_backoff
    → ((t : ℕ) → t ≤ c.max_backoff → jitter t ≤ most)
    → (c.poll_interval ≤ wait jitter c n) × (wait jitter c n ≤ c.max_backoff + most)
wait_within jitter most c n h j =
    let inside = relay_backoff_within c n h in
    let added = j (calculate_relay_backoff c n) inside.1 in (omega arith, omega arith)

waited-AllWithin :
    (jitter : ℕ → ℕ) (most : ℕ) (c : RelayerConfig) (again : ℕ → World → List ℕ × World)
    (end : WaitEnd) (n : ℕ) (r : Result ℕ × World)
    → c.poll_interval ≤ c.max_backoff
    → ((t : ℕ) → t ≤ c.max_backoff → jitter t ≤ most)
    → ((k : ℕ) (v : World) → AllWithin c.poll_interval (c.max_backoff + most) (again k v).0)
    → AllWithin c.poll_interval (c.max_backoff + most) (waited jitter c again end n r).0
unfolding AllWithin
waited-AllWithin jitter most c again notified n (r, v) h j rest =
    (wait_within jitter most c (next_empty n r) h j, rest 0 v)
waited-AllWithin jitter most c again elapsed n (r, v) h j rest =
    (wait_within jitter most c (next_empty n r) h j, rest (next_empty n r) v)
waited-AllWithin jitter most c again stopped n (r, v) h j rest =
    (wait_within jitter most c (next_empty n r) h j, tt)

unless_interrupted :
    (interrupted : Bool) (low high : ℕ) (w : World) (x : List ℕ × World)
    → AllWithin low high x.0
    → AllWithin low high (if interrupted then ([], w) else x).0
unfolding AllWithin
unless_interrupted true low high w x h = tt
unless_interrupted false low high w x h = h

-- What the relayer sets its waits to is bounded on both sides: in each wait of its loop the time is
-- no shorter than its interval and no longer than the maximum with the most that the jitter adds,
-- whatever its batches answer, however its waits end, and whichever statements the driver fails. The
-- interval is no more than the maximum.
pub run_relayer-AllWithin :
    (o : Outside) (jitter : ℕ → ℕ → ℕ) (most : ℕ) (c : RelayerConfig) (n : ℕ) (ends : List WaitEnd)
    (w : World)
    → c.poll_interval ≤ c.max_backoff
    → ((i t : ℕ) → t ≤ c.max_backoff → jitter i t ≤ most)
    → AllWithin c.poll_interval (c.max_backoff + most) (run_relayer o jitter c n ends w).0
unfolding AllWithin run_relayer
run_relayer-AllWithin o jitter most c n [] w h j = tt
run_relayer-AllWithin o jitter most c n (end ∷ ends) w h j =
    unless_interrupted (o.interrupts (length w.calls)) c.poll_interval (c.max_backoff + most) w
      (waited (jitter (length ends)) c (λ k v. run_relayer o jitter c k ends v) end n
        (process_pending_events o c.max_retries c.batch_size w))
      (waited-AllWithin (jitter (length ends)) most c (λ k v. run_relayer o jitter c k ends v) end n
        (process_pending_events o c.max_retries c.batch_size w) h (j (length ends))
        (λ k v. run_relayer-AllWithin o jitter most c k ends v h j))
