-- ===== src/Replay/Chosen.antt =====
-- How `Execute` (activity.go) chooses the id of an activity and looks for it in the cache.
use romancy.Base.{String, ℕ, ◌≡◌, refl, ap, some, same, ite}
use romancy.Json.{Json}
use romancy.Storage.World.{World, Outside}
use romancy.Activity.{
  Activity, ExecutionContext, Reply, generate_activity_id, get_cached_result, replayed, hit,
  execute_or_replay, chosen_id, execute,
}

-- The choice of an id reads and changes the counters alone.
pub chosen_id-counts :
    (o : Outside) (given : String) (a : Activity) (ec ec' : ExecutionContext)
    → ec.activity_counts ≡ ec'.activity_counts
    → ((chosen_id o given a ec).0 ≡ (chosen_id o given a ec').0)
      × ((chosen_id o given a ec).1.activity_counts ≡ (chosen_id o given a ec').1.activity_counts)
unfolding generate_activity_id
chosen_id-counts o given a ec ec' e = go (same given "")
  where
    go :
        (d : Dec (given ≡ ""))
        → ((ite d (generate_activity_id a.name ec) (given, ec)).0
            ≡ (ite d (generate_activity_id a.name ec') (given, ec')).0)
          × ((ite d (generate_activity_id a.name ec) (given, ec)).1.activity_counts
              ≡ (ite d (generate_activity_id a.name ec') (given, ec')).1.activity_counts)
    go (yes p) = rw e (refl, refl)
    go (no n) = (refl, e)

pub chosen_id-kept :
    (o : Outside) (given : String) (a : Activity) (ec : ExecutionContext)
    → ((i : String) → get_cached_result i (chosen_id o given a ec).1 ≡ get_cached_result i ec)
      × ((chosen_id o given a ec).1.instance_id ≡ ec.instance_id)
unfolding generate_activity_id get_cached_result
chosen_id-kept o given a ec = go (same given "")
  where
    go :
        (d : Dec (given ≡ ""))
        → ((i : String)
            → get_cached_result i (ite d (generate_activity_id a.name ec) (given, ec)).1
              ≡ get_cached_result i ec)
          × ((ite d (generate_activity_id a.name ec) (given, ec)).1.instance_id ≡ ec.instance_id)
    go (yes p) = ((λ i. refl), refl)
    go (no n) = ((λ i. refl), refl)

pub execute-cached :
    (o : Outside) (fuel : ℕ) (a : Activity) (given : String) (input : Json) (ec : ExecutionContext)
    (w : World) (d : Reply)
    → get_cached_result (chosen_id o given a ec).0 (chosen_id o given a ec).1 ≡ some d
    → execute o fuel a given input ec w
      ≡ some (replayed a (chosen_id o given a ec).0 d, hit (chosen_id o given a ec).1, w)
unfolding execute
execute-cached o fuel a given input ec w d e =
    ap (execute_or_replay o fuel a input (chosen_id o given a ec).0 (chosen_id o given a ec).1 w) e
