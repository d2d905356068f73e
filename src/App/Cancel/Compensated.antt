-- ===== src/App/Cancel/Compensated.antt =====
-- The three loops over the compensations: internal/replay/engine.go, app.go and
-- compensation/executor.go.
use romancy.Base.{
  String, ℕ, ◌≡◌, refl, Bool, true, false, Option, some, List, [], ◌∷◌, any, ◌==◌, if◌then◌else◌,
}
use romancy.Errors.{Error, Result, ok, err}
use romancy.Storage.Models.{CompensationEntry}
use romancy.Storage.World.{World, Outside, pure, ignore, ◌>>=◌, ◌>>◌}
use romancy.Saga.{first_error, noted, attempt, run_compensation, run_entries}
use romancy.App.Cancel.{
  after_executor, execute_entry, execute_entries, execute_one, after_one, run_each_one, first_of,
}

-- Every entry's activity has an executor.
abbrev pub AllRegistered : (String → Bool) → List CompensationEntry → Type 0
AllRegistered has [] = Unit
AllRegistered has (entry ∷ entries) = (has entry.activity_name ≡ true) × AllRegistered has entries

module _ (o : Outside) (has : String → Bool) (id : String) (executed : List ℕ)
    (entries : List CompensationEntry) where
  -- The three loops leave the same world, whatever they know at their start.
  abbrev pub SameEnds : World → Type 0
  SameEnds w =
      (last first first' : Option Error)
      → ((execute_entries o has id executed entries last w).1
          ≡ (run_entries o id executed entries first w).1)
        × ((run_each_one o has id executed entries first' w).1
            ≡ (run_entries o id executed entries first w).1)

  answered :
      (entry : CompensationEntry) (last first first' : Option Error)
      → ((v : World) → SameEnds v)
      → (r : Result (Unit {0})) (v : World)
      → (((after_executor o has id entry last r >>= execute_entries o has id executed entries) v).1
          ≡ ((noted id entry first r >>= run_entries o id executed entries) v).1)
        × (((after_one o has id entry first' r >>= run_each_one o has id executed entries) v).1
            ≡ ((noted id entry first r >>= run_entries o id executed entries) v).1)
  unfolding ignore pure ◌>>=◌ ◌>>◌ execute_entries run_entries run_each_one
  answered entry last first first' ih (ok x) v = ih _ last first first'
  answered entry last first first' ih (err e) v =
      ih _ (some e) (first_error entry.activity_id first e) (first_of o has first' e)

-- Where every entry's activity has an executor, the loop that app.go runs on a cancellation and the
-- loop of compensation/executor.go do what the loop of the engine does on a failure: from any world
-- they leave the same tables, calls, clock and answers of the driver, whatever the compensations
-- answer and whatever errors the loops know at their start.
pub execute_entries-run_entries :
    (o : Outside) (has : String → Bool) (id : String) (executed : List ℕ)
    (entries : List CompensationEntry) (w : World)
    → AllRegistered has entries
    → SameEnds o has id executed entries w
unfolding execute_entries run_entries run_each_one execute_one attempt pure ◌>>=◌
execute_entries-run_entries o has id executed [] w all last first first' = (refl, refl)
execute_entries-run_entries o has id executed (entry ∷ entries) w all last first first' =
    step (λ v. execute_entries-run_entries o has id executed entries v all.1)
      (any (λ n. n == entry.id) executed)
  where
    step :
        ((v : World) → SameEnds o has id executed entries v)
        → (b : Bool)
        → (((if b
                then execute_entries o has id executed entries last
                else execute_entry o has id entry last
                  >>= execute_entries o has id executed entries)
              w).1
            ≡ ((if b
                  then run_entries o id executed entries first
                  else attempt (run_compensation o entry) >>= λ r.
                      noted id entry first r >>= run_entries o id executed entries)
                w).1)
          × (((if b
                  then run_each_one o has id executed entries first'
                  else attempt (execute_one o has entry) >>= λ r.
                      after_one o has id entry first' r >>= run_each_one o has id executed entries)
                w).1
              ≡ ((if b
                    then run_entries o id executed entries first
                    else attempt (run_compensation o entry) >>= λ r.
                        noted id entry first r >>= run_entries o id executed entries)
                  w).1)
    step ih true = ih w last first first'
    step ih false = rw all.0 (
        answered o has id executed entries entry last first first' ih (run_compensation o entry w).0
          (run_compensation o entry w).1)
