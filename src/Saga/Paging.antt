-- ===== src/Saga/Paging.antt =====
-- The pages that `getExecutedCompensationIDs` (internal/replay/engine.go) reads.
use romancy.Base.{
  String, ℕ, ◌≤◌, ◌<◌, ◌≡◌, refl, sym, ap, ◌∙◌, subst, Bool, true, false, Option, none, some, List,
  [], ◌∷◌, ◌++◌, arith, ltb, zero, suc, length, select, take, drop, take-append-drop, take_all,
  length-take, length-drop,
}
use romancy.Errors.{Result, ok, err, sql_error}
use romancy.Storage.Models.{Db, HistoryEvent}
use romancy.Storage.World.{World, query}
use romancy.Storage.World.Keeps.{statement_cases}
use romancy.Storage.History.{of_instance, events_after, get_history_paginated}
use romancy.Storage.History.Replayed.{Rising, after_head, after_all, page-take}
use romancy.Saga.{executed_ids, last_id, joined, more_pages, executed_from}

executed_ids-append :
    (xs ys : List HistoryEvent) → executed_ids (xs ++ ys) ≡ executed_ids xs ++ executed_ids ys
unfolding executed_ids
executed_ids-append [] ys = refl
executed_ids-append (h ∷ xs) ys = ground (arith, executed_ids-append xs ys)

-- The events after the last one of a page are those that the page left.
after_page :
    (id : String) (d : Db) (n k : ℕ) (events : List HistoryEvent)
    → Rising 0 d.history
    → events_after id k d ≡ events
    → events_after id (last_id k (take n events)) d ≡ drop n events
after_page id d zero k events r e = e
after_page id d (suc n) k [] r e = e
after_page id d (suc n) k (h ∷ events) r e =
    after_page id d n h.id events r (after_head (of_instance id) k 0 d.history h events r e)

-- The loop found these numbers and changed nothing, or the driver failed.
abbrev pub Finds : List ℕ → World → Option (Result (List ℕ) × World) → Type 0
Finds ids w none = ⊥
Finds ids w (some (ok found, v)) = (found ≡ ids) × (v.db ≡ w.db) × (v.calls ≡ w.calls)
Finds ids w (some (err e, v)) = (e ≡ sql_error) × (v.db ≡ w.db) × (v.calls ≡ w.calls)

longer : (n : ℕ) → true ≡ ltb 100 n → 100 < n
longer n e = ground arith

not_longer : (n : ℕ) → false ≡ ltb 100 n → n ≤ 100
not_longer n e = ground arith

short_page : {A : Type 0} (n : ℕ) (xs : List A) → length (take (suc n) xs) ≤ n → take n xs ≡ xs
short_page n xs h = take_all n xs (omega (arith, length-take (suc n) xs))

joined-Finds :
    (events rows : List HistoryEvent) (w v : World) (r : Option (Result (List ℕ) × World))
    → rows ≡ take 100 events
    → v.db ≡ w.db
    → v.calls ≡ w.calls
    → Finds (executed_ids (drop 100 events)) v r
    → Finds (executed_ids events) w (joined rows r)
joined-Finds events rows w v none p d c f = f
joined-Finds events rows w v (some (err e, u)) p d c f = (f.0, f.1 ∙ d, f.2 ∙ c)
joined-Finds events rows w v (some (ok ids, u)) p d c f = (
  rw (p, f.0)
      (sym (executed_ids-append (take 100 events) (drop 100 events))
        ∙ ap executed_ids (take-append-drop 100 events)),
  f.1 ∙ d,
  f.2 ∙ c,
)

module _ (d : Db) (rising : Rising 0 d.history) (id : String) where
  -- What is asked of the loop from a number on, with some fuel.
  abbrev Ends : ℕ → Type 0
  Ends fuel =
      (k : ℕ) (w : World)
      → w.db ≡ d
      → length (events_after id k d) < fuel
      → Finds (executed_ids (events_after id k d)) w (executed_from fuel id k w)

  more-Finds :
      (fuel k : ℕ) (rows : List HistoryEvent) (has_more : Bool) (w v : World)
      → Ends fuel
      → rows ≡ take 100 (events_after id k d)
      → has_more ≡ ltb 100 (length (take 101 (events_after id k d)))
      → w.db ≡ d
      → v.db ≡ w.db
      → v.calls ≡ w.calls
      → length (events_after id k d) < suc fuel
      → Finds
          (executed_ids (events_after id k d))
          w
          (more_pages (executed_from fuel id) k (ok (rows, has_more), v))
  more-Finds fuel k rows false w v ih p q wd vd c h =
      let whole = short_page 100 (events_after id k d) (not_longer _ q) in
      (ap executed_ids (p ∙ whole), vd, c)
  more-Finds fuel k rows true w v ih p q wd vd c h =
      let rest : events_after id (last_id k rows) d ≡ drop 100 (events_after id k d) =
        rw p (after_page id d 100 k (events_after id k d) rising refl) in
      joined-Finds (events_after id k d) rows w v _ p vd c (
        subst (λ l. Finds (executed_ids l) v (executed_from fuel id (last_id k rows) v)) rest
          (ih (last_id k rows) v (vd ∙ wd) (
            omega (
              arith,
              ap length rest,
              length-drop 100 (events_after id k d),
              length-take 101 (events_after id k d),
              longer (length (take 101 (events_after id k d))) q,
            ))))

  executed_from-Finds : (fuel : ℕ) → Ends fuel
  unfolding executed_from get_history_paginated query
  executed_from-Finds zero k w e h = absurd (omega arith)
  executed_from-Finds (suc fuel) k w e h =
      statement_cases
        (λ out.
          Finds (executed_ids (events_after id k d)) w (more_pages (executed_from fuel id) k out))
        _ w (λ rest. (refl, refl, refl))
        (λ rest.
          more-Finds fuel k _ _ w (record w { faults = rest }) (executed_from-Finds fuel)
            (page-take 100 (events_after id k w.db) ∙ ap (λ b. take 100 (events_after id k b)) e)
            (ap (λ b. ltb 100 (length (take 101 (events_after id k b)))) e) e refl refl h)

-- With one round of fuel more than there are rows, the loop ends, with any failures of the driver:
-- with the driver's error, or with exactly the numbers that the instance's compensation events name.
-- The numbers of the rows rise.
pub executed_from-history :
    (id : String) (fuel : ℕ) (w : World)
    → Rising 0 w.db.history
    → length (select (of_instance id) w.db.history) < fuel
    → Finds (executed_ids (select (of_instance id) w.db.history)) w (executed_from fuel id 0 w)
executed_from-history id fuel w r h =
    let whole = after_all (of_instance id) 0 0 w.db.history (omega arith) r in
    subst (λ events. Finds (executed_ids events) w (executed_from fuel id 0 w)) whole
      (executed_from-Finds w.db r id fuel 0 w refl (rw whole h))
