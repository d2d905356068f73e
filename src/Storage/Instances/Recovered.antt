-- ===== src/Storage/Instances/Recovered.antt =====
-- A workflow whose worker has died: CleanupStaleLocks and FindResumableWorkflows of
-- internal/storage/sqlite.go.
use romancy.Base.{
  String, ℕ, ◌≤◌, ◌≡◌, refl, sym, ap, subst, ◌∙◌, Bool, true, false, List, [], ◌∷◌, any, select,
  update, take, take_all, length, suc, ◌&&◌, ◌||◌, arith, if◌then◌else◌,
}
use romancy.Errors.{ok}
use romancy.Storage.Models.{WorkflowInstance}
use romancy.Storage.World.{World, seconds, query, exec_, now, pure, statement, ◌>>=◌, ◌>>◌}
use romancy.Storage.Instances.{
  by_id, is_resumable, is_running, insert_by_update, order_by_update, find_resumable_workflows,
}
use romancy.Storage.Locks.{is_stale, unlocked, cleanup_stale_locks}

any-insert :
    (id : String) (r : WorkflowInstance) (rows : List WorkflowInstance)
    → any (by_id id) (insert_by_update r rows) ≡ (by_id id r || any (by_id id) rows)
unfolding insert_by_update
any-insert id r [] = refl
any-insert id r (s ∷ rows) = ground (arith, any-insert id r rows)

any-order :
    (id : String) (rows : List WorkflowInstance)
    → any (by_id id) (order_by_update rows) ≡ any (by_id id) rows
unfolding order_by_update
any-order id [] = refl
any-order id (r ∷ rows) =
    any-insert id r (order_by_update rows) ∙ ap (λ b. by_id id r || b) (any-order id rows)

length-insert :
    (r : WorkflowInstance) (rows : List WorkflowInstance)
    → length (insert_by_update r rows) ≡ suc (length rows)
unfolding insert_by_update
length-insert r [] = refl
length-insert r (s ∷ rows) = ground (arith, length-insert r rows)

length-order : (rows : List WorkflowInstance) → length (order_by_update rows) ≡ length rows
unfolding order_by_update
length-order [] = refl
length-order (r ∷ rows) = length-insert r (order_by_update rows) ∙ ap suc (length-order rows)

-- The row runs, and its lock is stale.
abbrev pub is_abandoned : String → ℕ → WorkflowInstance → Bool
is_abandoned id t r = by_id id r && (is_stale t r && is_running r.status)

one_row :
    (id : String) (t : ℕ) (r : WorkflowInstance)
    → is_abandoned id t r ≡ true
    → (is_stale t r ≡ true)
      × (is_resumable (unlocked t r) ≡ true)
      × (by_id id (unlocked t r) ≡ true)
one_row id t r h = (ground arith, ground arith, ground arith)

kept_by_more :
    (id : String) (x : WorkflowInstance) (rows : List WorkflowInstance)
    → any (by_id id) (select is_resumable rows) ≡ true
    → any (by_id id) (select is_resumable (x ∷ rows)) ≡ true
kept_by_more id x rows h = go (is_resumable x)
  where
    go :
        (b : Bool)
        → any (by_id id) (if b then x ∷ select is_resumable rows else select is_resumable rows)
          ≡ true
    go true = go_or (by_id id x)
      where
        go_or : (c : Bool) → (c || any (by_id id) (select is_resumable rows)) ≡ true
        go_or true = refl
        go_or false = h
    go false = h

-- A stale row that runs is resumable once its lock is cleared.
abandoned-resumable :
    (id : String) (t : ℕ) (rows : List WorkflowInstance)
    → any (is_abandoned id t) rows ≡ true
    → any (by_id id) (select is_resumable (update (is_stale t) (unlocked t) rows)) ≡ true
abandoned-resumable id t [] h = cc
abandoned-resumable id t (r ∷ rows) h =
    go (is_abandoned id t r) refl h (abandoned-resumable id t rows)
  where
    others : List WorkflowInstance
    others = update (is_stale t) (unlocked t) rows

    more :
        (b : Bool)
        → any (by_id id) (select is_resumable others) ≡ true
        → any (by_id id) (select is_resumable (if b then unlocked t r ∷ others else r ∷ others))
          ≡ true
    more true e = kept_by_more id (unlocked t r) others e
    more false e = kept_by_more id r others e

    go :
        (b : Bool)
        → is_abandoned id t r ≡ b
        → (b || any (is_abandoned id t) rows) ≡ true
        → (any (is_abandoned id t) rows ≡ true → any (by_id id) (select is_resumable others) ≡ true)
        → any
            (by_id id)
            (select is_resumable (if is_stale t r then unlocked t r ∷ others else r ∷ others))
          ≡ true
    go true e h ih =
        let (stale, resumable, own) = one_row id t r e in rw (stale, resumable, own) refl
    go false e h ih = more (is_stale t r) (ih h)

select-update-length :
    (t : ℕ) (rows : List WorkflowInstance)
    → length (select is_resumable (update (is_stale t) (unlocked t) rows)) ≤ length rows
select-update-length t [] = omega arith
select-update-length t (r ∷ rows) = ground (arith, select-update-length t rows)

-- A worker's death is no workflow's: let the driver not fail, and an instance of the framework "go"
-- be running with a lock that has expired. After `CleanupStaleLocks`, `FindResumableWorkflows`
-- answers with the instance among its rows, so that any worker resumes it, where the limit is no
-- smaller than the number of the instances.
pub cleanup_stale_locks-resumable :
    (id : String) (n : ℕ) (w : World)
    → w.faults ≡ []
    → any (is_abandoned id (seconds w)) w.db.instances ≡ true
    → length w.db.instances ≤ suc n
    → (rows : List WorkflowInstance) × (v : World) × (find_resumable_workflows
          (suc n)
          (cleanup_stale_locks w).1
        ≡ (ok rows, v))
      × (any (by_id id) rows ≡ true)
unfolding find_resumable_workflows cleanup_stale_locks ◌>>=◌ ◌>>◌ query exec_ statement now pure
cleanup_stale_locks-resumable id n w f abandoned room =
    subst
      (λ fs.
        (rows : List WorkflowInstance) × (v : World) × (find_resumable_workflows (suc n)
            (cleanup_stale_locks (record w { faults = fs })).1
          ≡ (ok rows, v))
        × (any (by_id id) rows ≡ true))
      (sym f) (take (suc n) (order_by_update ready), _, refl, found)
  where
    ready : List WorkflowInstance
    ready =
        select is_resumable (update (is_stale (seconds w)) (unlocked (seconds w)) w.db.instances)

    found : any (by_id id) (take (suc n) (order_by_update ready)) ≡ true
    found =
        ap (any (by_id id)) (
          take_all (suc n) (order_by_update ready) (
            omega
              (arith, length-order ready, select-update-length (seconds w) w.db.instances, room)))
        ∙ any-order id ready
        ∙ abandoned-resumable id (seconds w) w.db.instances abandoned
