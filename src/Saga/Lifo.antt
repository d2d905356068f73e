-- ===== src/Saga/Lifo.antt =====
-- Which compensations `executeCompensations` of internal/replay/engine.go calls, and in which order.
use mathlib.Core.List.{reverse, reverse-cons}
use romancy.Base.{
  String, ℕ, ◌≤◌, ◌<◌, ◌≡◌, refl, sym, subst, ◌⊎◌, inl, inr, Bool, true, Option, none, some, List,
  [], ◌∷◌, ◌++◌, arith, ◌==◌, suc, length, length-select, select, reject, any, Bool-cases,
}
use romancy.Errors.{Error, Result, ok, err, sql_error, wrap}
use romancy.Storage.Models.{HistoryEvent, CompensationEntry}
use romancy.Storage.World.{
  World, M, Call, compensation, Outside, pure, raise, in_context, ignore, called, exec_, now, query,
  ◌>>=◌, ◌>>◌,
}
use romancy.Storage.World.Keeps.{statement_cases}
use romancy.Storage.History.{of_instance, append_history}
use romancy.Storage.History.Replayed.{Rising}
use romancy.Storage.Compensations.{insert_newest, newest_first, of_workflow, get_compensations}
use romancy.Saga.{
  executed_ids, record_compensation_result, noted, attempt, run_compensation, run_entries,
  executed_from, with_fuel, get_executed_compensation_ids, raise_first, run_pending,
  execute_compensations,
}
use romancy.Saga.Paging.{Finds, executed_from-history}

-- The rows stand in the order in which they were added, by a clock that does not go back.
abbrev pub AddedBefore : CompensationEntry → List CompensationEntry → Type 0
AddedBefore c [] = Unit
AddedBefore c (e ∷ rows) = (c.created_at ≤ e.created_at) × (c.id < e.id) × AddedBefore c rows

abbrev pub Chronological : List CompensationEntry → Type 0
Chronological [] = Unit
Chronological (c ∷ rows) = AddedBefore c rows × Chronological rows

AddedBefore-append :
    (c e : CompensationEntry) (rows : List CompensationEntry)
    → AddedBefore c rows
    → c.created_at ≤ e.created_at
    → c.id < e.id
    → AddedBefore c (rows ++ e ∷ [])
AddedBefore-append c e [] a t i = (t, i, tt)
AddedBefore-append c e (x ∷ rows) a t i = (a.0, a.1, AddedBefore-append c e rows a.2 t i)

AddedBefore-reverse :
    (c : CompensationEntry) (rows : List CompensationEntry)
    → AddedBefore c rows
    → AddedBefore c (reverse rows)
AddedBefore-reverse c [] a = tt
AddedBefore-reverse c (e ∷ rows) a =
    rw (reverse-cons e rows)
      (AddedBefore-append c e (reverse rows) (AddedBefore-reverse c rows a.2) a.0 a.1)

insert_newest_last :
    (c : CompensationEntry) (rows : List CompensationEntry)
    → AddedBefore c rows
    → insert_newest c rows ≡ rows ++ c ∷ []
unfolding insert_newest
insert_newest_last c [] a = refl
insert_newest_last c (e ∷ rows) a = ground (arith, insert_newest_last c rows a.2)

-- `ORDER BY created_at DESC, id DESC` gives the entries in the reverse of the order of adding.
pub newest_first-reverse :
    (rows : List CompensationEntry) → Chronological rows → newest_first rows ≡ reverse rows
unfolding newest_first
newest_first-reverse [] c = refl
newest_first-reverse (x ∷ rows) c =
    rw (newest_first-reverse rows c.1, reverse-cons x rows)
      (insert_newest_last x (reverse rows) (AddedBefore-reverse x rows c.0))

abbrev pub is_executed : List ℕ → CompensationEntry → Bool
is_executed executed entry = any (λ n. n == entry.id) executed

abbrev pub pending : List ℕ → List CompensationEntry → List CompensationEntry
pending executed = reject (is_executed executed)

-- The calls with those of the entries made after them, in the order of the list.
abbrev pub then_called : List Call → List CompensationEntry → List Call
then_called calls [] = calls
then_called calls (e ∷ entries) = then_called (compensation e.activity_name e.args ∷ calls) entries

append_history-calls :
    (event : HistoryEvent) (w : World) → (append_history event w).1.calls ≡ w.calls
unfolding append_history ◌>>=◌ now exec_
append_history-calls event w =
    statement_cases (λ out. out.1.calls ≡ w.calls) _ w (λ rest. refl) (λ rest. refl)

-- The note of a result cannot fail, and makes no call.
abbrev Quiet : {A : Type 0} → World → Result A × World → Type 0
Quiet w (ok a, v) = v.calls ≡ w.calls
Quiet w (err e, v) = ⊥

noted-Quiet :
    (id : String) (entry : CompensationEntry) (first : Option Error) (r : Result (Unit {0}))
    (w : World)
    → Quiet w (noted id entry first r w)
unfolding ◌>>◌ ◌>>=◌ ignore pure record_compensation_result
noted-Quiet id entry first (ok x) w = append_history-calls _ w
noted-Quiet id entry first (err e) w = append_history-calls _ w

-- Every entry that is pending is called once, in the order of the list; no failure stops the loop.
abbrev Called : List Call → Result (Option Error) × World → Type 0
Called calls (ok first, v) = v.calls ≡ calls
Called calls (err e, v) = ⊥

Quiet-then :
    (calls : List Call) (m : M (Option Error)) (k : Option Error → M (Option Error)) (w : World)
    → Quiet w (m w)
    → ((a : Option Error) (v : World) → v.calls ≡ w.calls → Called calls (k a v))
    → Called calls ((m >>= k) w)
unfolding ◌>>=◌
Quiet-then calls m k w q h = go (m w).0 (m w).1 q
  where
    go :
        (r : Result (Option Error)) (v : World)
        → Quiet w (r, v)
        → Called calls (elim r [ ok a ↦ k a v | err e ↦ (err e, v) ])
    go (ok a) v c = h a v c
    go (err e) v c = absurd c

module _ (o : Outside) (id : String) (executed : List ℕ) where
  next_entry :
      (e : CompensationEntry) (entries : List CompensationEntry) (first : Option Error)
      → ((f : Option Error) (u : World)
          → Called
              (then_called u.calls (pending executed entries))
              (run_entries o id executed entries f u))
      → (r : Result (Unit {0})) (v : World)
      → Called
          (then_called v.calls (pending executed entries))
          ((noted id e first r >>= run_entries o id executed entries) v)
  next_entry e entries first ih r v =
      Quiet-then (then_called v.calls (pending executed entries)) (noted id e first r)
        (run_entries o id executed entries) v (noted-Quiet id e first r v)
        (λ a u c.
          subst
            (λ k.
              Called (then_called k (pending executed entries))
                (run_entries o id executed entries a u))
            c (ih a u))

  run_entries-Called :
      (entries : List CompensationEntry) (first : Option Error) (w : World)
      → Called
          (then_called w.calls (pending executed entries))
          (run_entries o id executed entries first w)
  unfolding run_entries pure ◌>>=◌ attempt run_compensation called
  run_entries-Called [] first w = refl
  run_entries-Called (e ∷ entries) first w = elim (Bool-cases (is_executed executed e)) [
    | inl done ↦ rw (done) (run_entries-Called entries first w)
    | inr fresh ↦ rw fresh (
        next_entry e entries first (λ f u. run_entries-Called entries f u)
          (o.compensate e.activity_name e.args (length w.calls))
          (record w { calls = compensation e.activity_name e.args ∷ w.calls }))
  ]

-- What a run of the compensations of a workflow did: it could not read the tables, and called
-- nothing; or it called all that was pending, in this order.
abbrev pub Compensates : List Call → List CompensationEntry → Result (Unit {0}) × World → Type 0
Compensates calls entries (r, v) =
    ((v.calls ≡ calls)
      × ((r ≡ err (wrap "failed to get compensations" sql_error))
          ⊎ (r ≡ err (wrap "failed to get executed compensations" sql_error))))
    ⊎ (v.calls ≡ then_called calls entries)

raise_first-Compensates :
    (calls : List Call) (entries : List CompensationEntry) (r : Result (Option Error)) (v : World)
    → Called (then_called calls entries) (r, v)
    → Compensates calls entries (((λ w. (r, v)) >>= raise_first) v)
unfolding ◌>>=◌ pure raise
raise_first-Compensates calls entries (ok none) v c = inr c
raise_first-Compensates calls entries (ok (some e)) v c = inr c
raise_first-Compensates calls entries (err e) v c = absurd c

module _ (o : Outside) (id : String) where
  -- What follows the search for the numbers that are done.
  abbrev run_found : List CompensationEntry → Option (Result (List ℕ) × World) → M (Unit {0})
  run_found entries found = do
    executed ← in_context "failed to get executed compensations" (λ w. with_fuel w found)
    first ← run_entries o id executed entries none
    raise_first first

  run_found-Compensates :
      (ids : List ℕ) (entries : List CompensationEntry) (w : World)
      (found : Option (Result (List ℕ) × World))
      → Finds ids w found
      → Compensates w.calls (pending ids entries) (run_found entries found w)
  unfolding ◌>>=◌ in_context
  run_found-Compensates ids entries w none f = absurd f
  run_found-Compensates ids entries w (some (err e, v)) f = inl (f.2, inr (rw f.0 refl))
  run_found-Compensates ids entries w (some (ok found, v)) f =
      let out : Result (Option Error) × World = run_entries o id found entries none v in
      raise_first-Compensates w.calls (pending ids entries) out.0 out.1 (
        subst (λ k. Called k out) (rw (f.0, f.2) refl)
          (run_entries-Called o id found entries none v))

  run_pending-Compensates :
      (entries : List CompensationEntry) (w : World)
      → Rising 0 w.db.history
      → Compensates w.calls
          (pending (executed_ids (select (of_instance id) w.db.history)) entries)
          (run_pending o true id entries w)
  unfolding pure get_executed_compensation_ids ◌>>=◌ in_context
  run_pending-Compensates [] w r = inr refl
  run_pending-Compensates (e ∷ entries) w r =
      run_found-Compensates (executed_ids (select (of_instance id) w.db.history)) (e ∷ entries) w
        (executed_from (suc (length w.db.history)) id 0 w)
        (executed_from-history id (suc (length w.db.history)) w r
          (omega (arith, length-select (of_instance id) w.db.history)))

-- With a runner and any failures of the driver and of the compensations, the engine either cannot
-- read the tables and calls nothing; or it calls every compensation of the instance that its
-- history does not name, once each, the last one added first. The history's numbers rise, and the
-- clock did not go back while the compensations were added.
pub execute_compensations-Compensates :
    (o : Outside) (id : String) (w : World)
    → Rising 0 w.db.history
    → Chronological (select (of_workflow id) w.db.compensations)
    → Compensates w.calls
        (pending
          (executed_ids (select (of_instance id) w.db.history))
          (reverse (select (of_workflow id) w.db.compensations)))
        (execute_compensations o true id w)
unfolding execute_compensations get_compensations query ◌>>=◌ in_context
execute_compensations-Compensates o id w r c =
    let rows : List CompensationEntry = select (of_workflow id) w.db.compensations in
    let ids : List ℕ = executed_ids (select (of_instance id) w.db.history) in
    rw (sym (newest_first-reverse rows c)) (
      statement_cases
        (λ out.
          Compensates w.calls (pending ids (newest_first rows))
            ((in_context "failed to get compensations" (λ _. out) >>= run_pending o true id) w))
        _ w (λ rest. inl (refl, inl refl))
        (λ rest. run_pending-Compensates o id (newest_first rows) (record w { faults = rest }) r))
