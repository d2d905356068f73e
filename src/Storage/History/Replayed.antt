-- ===== src/Storage/History/Replayed.antt =====
-- The events that the iterator of internal/storage/history_iterator.go gives, page by page.
use romancy.Base.{
  String, ℕ, ◌≤◌, ◌<◌, ◌≡◌, refl, sym, ap, ◌∙◌, ◌⊎◌, inl, inr, Bool, true, false, Option, none,
  some, List, [], ◌∷◌, arith, ltb, ◌&&◌, zero, suc, length, select, take, if◌then◌else◌, Bool-cases,
  subst,
}
use romancy.Errors.{Error, Result, ok, err, sql_error}
use romancy.Storage.Models.{Db, HistoryEvent}
use romancy.Storage.World.{World, query}
use romancy.Storage.World.Keeps.{statement_cases}
use romancy.Storage.History.{of_instance, events_after, page, get_history_paginated}
use romancy.Storage.History.Iterator.{
  HistoryIterator, new_history_iterator, fetch_batch, fetched, give, advance, next, collect,
  prepend, filled, is_over, collected,
}

-- The numbers of the rows rise, from above a number: `AUTOINCREMENT`, read by `ORDER BY id`.
abbrev pub Rising : ℕ → List HistoryEvent → Type 0
Rising n [] = Unit
Rising n (h ∷ hs) = (n < h.id) × Rising h.id hs

module _ (p : HistoryEvent → Bool) where
  abbrev after : ℕ → List HistoryEvent → List HistoryEvent
  after k = select (λ h. p h && ltb k h.id)

  pub after_all :
      (k n : ℕ) (hs : List HistoryEvent) → k ≤ n → Rising n hs → after k hs ≡ select p hs
  after_all k n [] l r = refl
  after_all k n (h ∷ hs) l r = ground (arith, after_all k h.id hs (omega arith) r.1)

  head_later :
      (k : ℕ) (hs : List HistoryEvent) (x : HistoryEvent) (xs : List HistoryEvent)
      → after k hs ≡ x ∷ xs
      → k < x.id
  head_later k [] x xs e = cc
  head_later k (h ∷ hs) x xs e = ground (arith, head_later k hs x xs)

  -- Past its first event, the rest of a page is what comes after that event.
  pub after_head :
      (k n : ℕ) (hs : List HistoryEvent) (x : HistoryEvent) (xs : List HistoryEvent)
      → Rising n hs
      → after k hs ≡ x ∷ xs
      → after x.id hs ≡ xs
  after_head k n [] x xs r e = cc
  after_head k n (h ∷ hs) x xs r e = elim (Bool-cases (p h && ltb k h.id)) [
    | inl hit ↦
        ground
          (arith, after_all k h.id hs (ground arith) r.1, after_all h.id h.id hs (omega arith) r.1)
    | inr miss ↦ ground (arith, after_head k h.id hs x xs r.1, head_later k hs x xs)
  ]

module _ {A : Type 0} where
  take-take : (n : ℕ) (xs : List A) → take n (take (suc n) xs) ≡ take n xs
  take-take zero xs = refl
  take-take (suc n) [] = refl
  take-take (suc n) (x ∷ xs) = ap (◌∷◌ x) (take-take n xs)

  take_short : (n : ℕ) (xs : List A) → length (take (suc n) xs) ≤ n → take (suc n) xs ≡ take n xs
  take_short zero [] h = refl
  take_short zero (x ∷ xs) h = absurd (omega arith)
  take_short (suc n) [] h = refl
  take_short (suc n) (x ∷ xs) h = ap (◌∷◌ x) (take_short n xs (omega arith))

-- Reading one row more than the limit changes nothing about the page.
pub page-take :
    (limit : ℕ) (rows : List HistoryEvent)
    → (page limit (take (suc limit) rows)).0 ≡ take limit rows
page-take limit rows = ground (arith, take-take limit rows, take_short limit rows)

-- What a collection returns: an error of the driver, or exactly these events.
abbrev pub Yields : List HistoryEvent → Option (Result (List HistoryEvent) × World) → Type 0
Yields all none = ⊥
Yields all (some (ok hs, w)) = hs ≡ all
Yields all (some (err e, w)) = e ≡ sql_error

prepend-Yields :
    (h : HistoryEvent) (all : List HistoryEvent) (r : Option (Result (List HistoryEvent) × World))
    → Yields all r
    → Yields (h ∷ all) (prepend h r)
prepend-Yields h all none y = y
prepend-Yields h all (some (ok hs, w)) y = ap (◌∷◌ h) y
prepend-Yields h all (some (err e, w)) y = y

-- An iterator in the middle of the history: its buffer is the beginning of what is still to come.
module _ (d : Db) (rising : Rising 0 d.history) where
  abbrev Live : HistoryIterator → Type 0
  Live it =
      (0 < it.batch_size)
      × (it.done ≡ false)
      × (it.error ≡ none)
      × (it.rest ≡ take (length it.rest) (events_after it.instance_id it.last_id d))

  abbrev to_come : HistoryIterator → List HistoryEvent
  to_come it = events_after it.instance_id it.last_id d

  -- What one call of `Next` does: an event is the first of those to come, the end means that none
  -- is left, or that the driver failed.
  abbrev Steps : List HistoryEvent → Option HistoryEvent × HistoryIterator × World → Type 0
  Steps events (none, it, w) = ((it.error ≡ none) × (events ≡ [])) ⊎ (it.error ≡ some sql_error)
  Steps events (some h, it, w) = (w.db ≡ d) × Live it × (events ≡ h ∷ to_come it)

  taken :
      (it : HistoryIterator) (w : World) (h : HistoryEvent) (hs events : List HistoryEvent)
      → w.db ≡ d
      → 0 < it.batch_size
      → it.done ≡ false
      → it.error ≡ none
      → h ∷ hs ≡ take (suc (length hs)) events
      → to_come it ≡ events
      → Steps events (some h, record it { rest = hs; last_id = h.id }, w)
  taken it w h hs [] e b dn er prefix c = cc
  taken it w h hs (x ∷ xs) e b dn er prefix c =
      let head_is : h ≡ x = cc in
      let later : to_come (record it { rest = hs; last_id = h.id }) ≡ xs =
        rw head_is (after_head (of_instance it.instance_id) it.last_id 0 d.history x xs rising c) in
      (e, (b, dn, er, rw later (ground arith)), rw (later, head_is))

  length-take_self : {A : Type 0} (n : ℕ) (xs : List A) → take n xs ≡ take (length (take n xs)) xs
  length-take_self zero xs = refl
  length-take_self (suc n) [] = refl
  length-take_self (suc n) (x ∷ xs) = ap (◌∷◌ x) (length-take_self n xs)

  take_empty : {A : Type 0} (n : ℕ) (xs : List A) → 0 < n → [] ≡ take n xs → xs ≡ []
  take_empty zero xs b e = absurd (omega arith)
  take_empty (suc n) [] b e = refl
  take_empty (suc n) (x ∷ xs) b e = cc

  give_event :
      (it : HistoryIterator) (h : HistoryEvent) (hs : List HistoryEvent) (x : Option Error)
      → x ≡ none
      → give it (h ∷ hs) x ≡ (some h, record it { rest = hs; last_id = h.id })
  give_event it h hs none e = refl
  give_event it h hs (some y) e = cc

  give_end :
      (it : HistoryIterator) (x : Option Error)
      → x ≡ none
      → give it [] x ≡ (none, record it { done = true })
  give_end it none e = refl
  give_end it (some y) e = cc

  fetch_gives :
      (it : HistoryIterator) (w : World) (events page_rows : List HistoryEvent) (has_more : Bool)
      → w.db ≡ d
      → 0 < it.batch_size
      → it.done ≡ false
      → it.error ≡ none
      → page_rows ≡ take it.batch_size events
      → to_come it ≡ events
      → let it' = filled it page_rows has_more in
        let (event, it'') = give it' page_rows it.error in Steps events (event, it'', w)
  fetch_gives it w events [] has_more e b dn er p c =
      subst (λ (out : Option HistoryEvent × HistoryIterator). Steps events (out.0, out.1, w))
        (sym (give_end (filled it [] has_more) it.error er))
        (inl (er, take_empty it.batch_size events b p))
  fetch_gives it w events (h ∷ hs) has_more e b dn er p c =
      subst (λ (out : Option HistoryEvent × HistoryIterator). Steps events (out.0, out.1, w))
        (sym (give_event (filled it (h ∷ hs) has_more) h hs it.error er))
        (taken (filled it (h ∷ hs) has_more) w h hs events e b (ground arith) er
          (p ∙ length-take_self it.batch_size events ∙ ap (λ l. take (length l) events) (sym p)) c)

  -- The fetch, by the answer of the driver.
  advance_fetch :
      (it : HistoryIterator) (w : World)
      → w.db ≡ d
      → 0 < it.batch_size
      → it.done ≡ false
      → it.error ≡ none
      → Steps (to_come it) (advance it [] w)
  unfolding advance fetch_batch get_history_paginated query
  advance_fetch it w e b dn er =
      statement_cases
        (λ out.
          let it' = fetched it out.0 in
          let (event, it'') = give it' it'.rest it'.error in
          Steps (to_come it) (event, it'', out.1))
        _ w (λ rest. inr refl)
        (λ rest.
          fetch_gives it (record w { faults = rest }) (to_come it) _ _ e b dn er
            (page-take it.batch_size (events_after it.instance_id it.last_id w.db)
              ∙ ap (λ v. take it.batch_size (events_after it.instance_id it.last_id v)) e)
            refl)

  advance_buffer :
      (it : HistoryIterator) (w : World) (rest : List HistoryEvent)
      → it.rest ≡ rest
      → w.db ≡ d
      → Live it
      → Steps (to_come it) (advance it rest w)
  unfolding advance
  advance_buffer it w [] r e (b, dn, er, prefix) = advance_fetch it w e b dn er
  advance_buffer it w (h ∷ hs) r e (b, dn, er, prefix) =
      taken it w h hs (to_come it) e b dn er
        (subst (λ l. l ≡ take (length l) (to_come it)) r prefix) refl

  next-Steps :
      (it : HistoryIterator) (w : World) → w.db ≡ d → Live it → Steps (to_come it) (next it w)
  unfolding next
  next-Steps it w e l =
      let going : is_over it ≡ false = ground arith in
      subst (λ b. Steps (to_come it) (if b then (none, it, w) else advance it it.rest w))
        (sym going) (advance_buffer it w it.rest refl e l)

  ended-Yields :
      (x : Option Error) (events : List HistoryEvent) (w : World)
      → ((x ≡ none) × (events ≡ [])) ⊎ (x ≡ some sql_error)
      → Yields events (some (elim x [ none ↦ ok [] | some y ↦ err y ], w))
  ended-Yields none events w (inl (_, e)) = sym e
  ended-Yields none events w (inr e) = cc
  ended-Yields (some y) events w (inl (e, _)) = cc
  ended-Yields (some y) events w (inr e) = cc

  collected-Yields :
      (fuel : ℕ) (events : List HistoryEvent) (out : Option HistoryEvent × HistoryIterator × World)
      → ((it : HistoryIterator) (w : World)
          → w.db ≡ d
          → Live it
          → length (to_come it) < fuel
          → Yields (to_come it) (collect fuel it w))
      → Steps events out
      → length events < suc fuel
      → Yields events (collected (collect fuel) out)
  collected-Yields fuel events (none, it, w) ih s h = ended-Yields it.error events w s
  collected-Yields fuel events (some x, it, w) ih (e, l, c) h =
      rw c (
        prepend-Yields x (to_come it) (collect fuel it w)
          (ih it w e l (omega (arith, ap length c))))

  -- With one round of fuel more than there are events to come, the loop ends.
  collect-Yields :
      (fuel : ℕ) (it : HistoryIterator) (w : World)
      → w.db ≡ d
      → Live it
      → length (to_come it) < fuel
      → Yields (to_come it) (collect fuel it w)
  unfolding collect
  collect-Yields zero it w e l h = absurd (omega arith)
  collect-Yields (suc fuel) it w e l h =
      collected-Yields fuel (to_come it) (next it w) (collect-Yields fuel) (next-Steps it w e l) h

abbrev start : String → ℕ → HistoryIterator
start id n = record {
  instance_id = id;
  batch_size = n;
  rest = [];
  last_id = 0;
  done = false;
  error = none;
}

from_start :
    (id : String) (n fuel : ℕ) (w : World)
    → Rising 0 w.db.history
    → 0 < n
    → length (select (of_instance id) w.db.history) < fuel
    → Yields (select (of_instance id) w.db.history) (collect fuel (start id n) w)
from_start id n fuel w r b h =
    let whole = after_all (of_instance id) 0 0 w.db.history (omega arith) r in
    subst (λ events. Yields events (collect fuel (start id n) w)) whole
      (collect-Yields w.db r fuel (start id n) w refl (b, refl, refl, refl) (rw whole h))

-- Reading an instance's history from the start, with any page size and any failures of the driver,
-- ends with the driver's error or with exactly the instance's events in the order of their numbers,
-- given fuel for one round more than there are events. The numbers rise.
pub collect-new_history_iterator :
    (id : String) (batch_size fuel : ℕ) (w : World)
    → Rising 0 w.db.history
    → length (select (of_instance id) w.db.history) < fuel
    → Yields
        (select (of_instance id) w.db.history)
        (collect fuel (new_history_iterator id batch_size) w)
unfolding new_history_iterator
collect-new_history_iterator id zero fuel w r h = from_start id 1000 fuel w r (omega arith) h
collect-new_history_iterator id (suc n) fuel w r h = from_start id (suc n) fuel w r (omega arith) h
