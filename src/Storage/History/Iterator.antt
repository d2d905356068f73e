-- ===== src/Storage/History/Iterator.antt =====
-- internal/storage/history_iterator.go. `rest` is what the buffer holds from `bufferIdx` on; a
-- buffer that was never filled is an empty one.
use romancy.Base.{
  String, ℕ, Bool, true, false, Option, none, some, List, [], ◌∷◌, ltb, ◌&&◌, not, zero, suc,
  length, if◌then◌else◌, ◌==◌, ◌||◌, is_some,
}
use romancy.Errors.{Error, Result, ok, err}
use romancy.Storage.Models.{HistoryEvent}
use romancy.Storage.World.{World}
use romancy.Storage.History.{get_history_paginated}

pub record HistoryIterator : Type 0 where
  pub instance_id : String
  pub batch_size : ℕ
  pub rest : List HistoryEvent
  pub last_id : ℕ
  pub done : Bool
  pub error : Option Error

-- A batch size of 0 stands for the default.
abbrev pub batch_or_default : ℕ → ℕ
batch_or_default zero = 1000
batch_or_default (suc n) = suc n

unfoldable pub new_history_iterator : String → ℕ → HistoryIterator
new_history_iterator instance_id batch_size = record {
  instance_id = instance_id;
  batch_size = batch_or_default batch_size;
  rest = [];
  last_id = 0;
  done = false;
  error = none;
}

abbrev pub filled : HistoryIterator → List HistoryEvent → Bool → HistoryIterator
filled it events has_more = record it {
  rest = events;
  done = it.done || (not has_more && ltb (length events) it.batch_size && (length events == 0));
}

-- `fetchBatch`, and what `Next` does with its error.
abbrev pub fetched : HistoryIterator → Result (List HistoryEvent × Bool) → HistoryIterator
fetched it (ok (events, has_more)) = filled it events has_more
fetched it (err e) = record it { error = some e }

unfoldable pub fetch_batch : HistoryIterator → World → HistoryIterator × World
fetch_batch it w =
    let (r, v) = get_history_paginated it.instance_id it.last_id it.batch_size w in
    (fetched it r, v)

-- The next event of the buffer, or the end where the buffer is empty.
abbrev pub give :
    HistoryIterator → List HistoryEvent → Option Error → Option HistoryEvent × HistoryIterator
give it events (some e) = (none, it)
give it [] none = (none, record it { done = true })
give it (h ∷ events) none = (some h, record it { rest = events; last_id = h.id })

-- `Next`, by what the buffer holds.
unfoldable pub advance :
    HistoryIterator → List HistoryEvent → World → Option HistoryEvent × HistoryIterator × World
unfolding fetch_batch
advance it [] w =
    let (it', v) = fetch_batch it w in
    let (event, it'') = give it' it'.rest it'.error in (event, it'', v)
advance it (h ∷ events) w = (some h, record it { rest = events; last_id = h.id }, w)

abbrev pub is_over : HistoryIterator → Bool
is_over it = it.done || is_some it.error

unfoldable pub next : HistoryIterator → World → Option HistoryEvent × HistoryIterator × World
unfolding fetch_batch
next it w = if is_over it then (none, it, w) else advance it it.rest w

abbrev pub prepend :
    HistoryEvent
    → Option (Result (List HistoryEvent) × World)
    → Option (Result (List HistoryEvent) × World)
prepend h none = none
prepend h (some (ok hs, v)) = some (ok (h ∷ hs), v)
prepend h (some (err e, v)) = some (err e, v)

-- One round: the end, with what `Err` says, or an event before what the other rounds collect.
abbrev pub collected :
    (HistoryIterator → World → Option (Result (List HistoryEvent) × World))
    → Option HistoryEvent × HistoryIterator × World
    → Option (Result (List HistoryEvent) × World)
collected more (none, it, w) = some (elim it.error [ none ↦ ok [] | some e ↦ err e ], w)
collected more (some h, it, w) = prepend h (more it w)

-- `Collect`, and the loop of `executeWorkflow`: events until there is none, then `Err`. `none`
-- means that the fuel ran out.
unfoldable pub collect : ℕ → HistoryIterator → World → Option (Result (List HistoryEvent) × World)
collect zero it w = none
collect (suc fuel) it w = collected (collect fuel) (next it w)
