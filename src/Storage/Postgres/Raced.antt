-- ===== src/Storage/Postgres/Raced.antt =====
-- `TryAcquireLock` of internal/storage/postgres.go against another worker.
use romancy.Base.{
  String, ℕ, ◌≤◌, ◌≡◌, ◌≢◌, refl, sym, ap, subst, ◌∙◌, Bool, true, false, Option, none, some, [],
  find, update, arith, if◌then◌else◌,
}
use romancy.Errors.{Result, ok, err}
use romancy.Storage.Models.{WorkflowInstance}
use romancy.Storage.World.{World, ◌>>=◌, ◌>>◌, query, exec_, now_ns, pure}
use romancy.Storage.World.Keeps.{statement_done}
use romancy.Storage.World.Runs.{then-ok, query-each, exec-each}
use romancy.Storage.Instances.{by_id}
use romancy.Storage.Instances.Rows.{changed, changed?, find-update, HasKey, find-HasKey}
use romancy.Storage.Postgres.{
  Times, expiry, can_acquire, locked_row, select_for_update, write_lock, acquire_selected,
  try_acquire_lock,
}

abbrev pub row : String → World → Option WorkflowInstance
row id w = find (by_id id) w.db.instances

abbrev pub HasLock : String → ℕ → Option WorkflowInstance → Type 0
HasLock worker e none = ⊥
HasLock worker e (some r) = (r.locked_by ≡ some worker) × (r.lock_expires_at ≡ some e)

-- The world after an update of the row.
abbrev written : Times → ℕ → String → String → ℕ → World → World
written times clock id worker timeout w = record w {
  db = record (w.db) {
    instances = update (by_id id) (locked_row times clock worker timeout) (w.db).instances;
  };
  faults = [];
}

module _ (times : Times) (id worker : String) (clock timeout : ℕ) where
  written-row :
      (w : World)
      → row id (written times clock id worker timeout w)
        ≡ changed? (by_id id) (locked_row times clock worker timeout) (row id w)
  written-row w =
      find-update id (by_id id) (locked_row times clock worker timeout) (λ x. refl) w.db.instances

  locked-HasLock :
      (o : Option WorkflowInstance) (r : WorkflowInstance)
      → HasKey id o
      → o ≡ some r
      → HasLock worker
          (times.kept (expiry clock timeout))
          (changed? (by_id id) (locked_row times clock worker timeout) o)
  locked-HasLock none r k e = cc
  locked-HasLock (some x) r k e = ground arith

  written-HasLock :
      (w : World) (r : WorkflowInstance)
      → row id w ≡ some r
      → HasLock worker
          (times.kept (expiry clock timeout))
          (row id (written times clock id worker timeout w))
  written-HasLock w r found =
      subst (HasLock worker (times.kept (expiry clock timeout))) (sym (written-row w))
        (locked-HasLock (row id w) r (find-HasKey id w.db.instances) found)

  acquire_selected-done :
      (w : World) (r : WorkflowInstance)
      → w.faults ≡ []
      → can_acquire times clock worker r ≡ true
      → acquire_selected times clock id worker timeout (some r) w
        ≡ (ok true, written times clock id worker timeout w)
  unfolding acquire_selected write_lock exec_ ◌>>◌ ◌>>=◌ pure
  acquire_selected-done w r f can = rw can (
      then-ok (λ out. out ≡ (ok true, written times clock id worker timeout w))
        (write_lock times clock id worker timeout) (pure true) w
        (written times clock id worker timeout w) (statement_done _ w f) refl)

select-done :
    (times : Times) (id : String) (w : World)
    → w.faults ≡ []
    → select_for_update times id false w ≡ (ok (row id w), record w { faults = [] })
unfolding select_for_update query
select-done times id w f = statement_done _ w f

-- Two workers may both be told that they have the lock: where each of them has read the row before
-- either has written it, the row was free for both, and the driver does not fail, both are answered
-- yes, whatever their times, and the row is then the one's that wrote last.
pub acquire_selected-both :
    (times : Times) (id first second : String) (t u timeout limit : ℕ) (r : WorkflowInstance)
    (w : World)
    → w.faults ≡ []
    → row id w ≡ some r
    → can_acquire times t first r ≡ true
    → can_acquire times u second r ≡ true
    → let seen = select_for_update times id false w in
      let seen_too = select_for_update times id false seen.1 in
      (seen.0 ≡ ok (some r))
      × (seen_too.0 ≡ ok (some r))
      × (let out = acquire_selected times t id first timeout (some r) seen_too.1 in
          let last = acquire_selected times u id second limit (some r) out.1 in
          (out.0 ≡ ok true)
          × HasLock first (times.kept (expiry t timeout)) (row id out.1)
          × (last.0 ≡ ok true)
          × HasLock second (times.kept (expiry u limit)) (row id last.1))
acquire_selected-both times id first second t u timeout limit r w f found can can_too =
    let w0 : World = record w { faults = [] } in
    let v : World = written times t id first timeout w0 in
    let read_row : select_for_update times id false w ≡ (ok (some r), w0) =
      select-done times id w f ∙ ap (λ (o : Option WorkflowInstance). (Result.ok o, w0)) found in
    let read_again : select_for_update times id false w0 ≡ (ok (some r), w0) =
      select-done times id w0 refl
      ∙ ap (λ (o : Option WorkflowInstance). (Result.ok o, w0)) found in
    let found_too : row id v ≡ some (changed (by_id id) (locked_row times t first timeout) r) =
      written-row times id first t timeout w0
      ∙ ap (changed? (by_id id) (locked_row times t first timeout)) found in
    rw
      (
        read_row,
        read_again,
        acquire_selected-done times id first t timeout w0 r refl can,
        acquire_selected-done times id second u limit v r refl can_too,
      )
      (
        refl,
        refl,
        (
          refl,
          written-HasLock times id first t timeout w0 r found,
          refl,
          written-HasLock times id second u limit v
              (changed (by_id id) (locked_row times t first timeout) r) found_too,
        ),
      )

-- What an answer of yes says, and what says that it is not yes.
abbrev Gained : String → ℕ → String → Result Bool × World → Type 0
Gained worker e id (ok true, v) = HasLock worker e (row id v)
Gained worker e id (ok false, v) = Unit
Gained worker e id (err x, v) = Unit

abbrev pub Refused : Result Bool → Type 0
Refused (ok true) = ⊥
Refused (ok false) = Unit
Refused (err x) = Unit

module _ (times : Times) (id worker : String) (timeout : ℕ) where
  acquire_selected-Gained :
      (clock : ℕ) (o : Option WorkflowInstance) (w : World)
      → row id w ≡ o
      → Gained worker
          (times.kept (expiry clock timeout))
          id
          (acquire_selected times clock id worker timeout o w)
  unfolding acquire_selected write_lock pure
  acquire_selected-Gained clock none w found = tt
  acquire_selected-Gained clock (some r) w found = go (can_acquire times clock worker r)
    where
      go :
          (c : Bool)
          → Gained worker
              (times.kept (expiry clock timeout))
              id
              ((if c then write_lock times clock id worker timeout >> pure true else pure false) w)
      go false = tt
      go true =
          exec-each (Gained worker (times.kept (expiry clock timeout)) id) _ (pure true) w
            (λ rest. tt) (λ rest. written-HasLock times id worker clock timeout w r found)

  try_acquire_lock-Gained :
      (skipped : Bool) (w : World)
      → Gained worker
          (times.kept (expiry w.clock timeout))
          id
          (try_acquire_lock times skipped id worker timeout w)
  unfolding try_acquire_lock ◌>>=◌ now_ns select_for_update acquire_selected pure
  try_acquire_lock-Gained true w =
      query-each (Gained worker (times.kept (expiry w.clock timeout)) id) (λ d. none)
        (acquire_selected times w.clock id worker timeout) w (λ rest. tt) (λ rest. tt)
  try_acquire_lock-Gained false w =
      query-each (Gained worker (times.kept (expiry w.clock timeout)) id)
        (λ d. find (by_id id) d.instances) (acquire_selected times w.clock id worker timeout) w
        (λ rest. tt)
        (λ rest. acquire_selected-Gained w.clock (row id w) (record w { faults = rest }) refl)

  cannot_acquire :
      (clock : ℕ) (r : WorkflowInstance) (holder : String) (e : ℕ)
      → HasLock holder e (some r)
      → holder ≢ worker
      → holder ≢ ""
      → clock ≤ times.read e
      → can_acquire times clock worker r ≡ false
  unfolding can_acquire
  cannot_acquire clock r holder e has other named early = ground arith

  acquire_selected-Refused :
      (clock : ℕ) (o : Option WorkflowInstance) (holder : String) (e : ℕ) (w : World)
      → HasLock holder e o
      → holder ≢ worker
      → holder ≢ ""
      → clock ≤ times.read e
      → Refused (acquire_selected times clock id worker timeout o w).0
  unfolding acquire_selected pure
  acquire_selected-Refused clock none holder e w has other named early = absurd has
  acquire_selected-Refused clock (some r) holder e w has other named early =
      rw (cannot_acquire clock r holder e has other named early) tt

  try_acquire_lock-Refused :
      (skipped : Bool) (holder : String) (e : ℕ) (w : World)
      → HasLock holder e (row id w)
      → holder ≢ worker
      → holder ≢ ""
      → w.clock ≤ times.read e
      → Refused (try_acquire_lock times skipped id worker timeout w).0
  unfolding try_acquire_lock ◌>>=◌ now_ns select_for_update acquire_selected pure
  try_acquire_lock-Refused true holder e w has other named early =
      query-each (λ out. Refused out.0) (λ d. none)
        (acquire_selected times w.clock id worker timeout) w (λ rest. tt) (λ rest. tt)
  try_acquire_lock-Refused false holder e w has other named early =
      query-each (λ out. Refused out.0) (λ d. find (by_id id) d.instances)
        (acquire_selected times w.clock id worker timeout) w (λ rest. tt)
        (λ rest.
          acquire_selected-Refused w.clock (row id w) holder e (record w { faults = rest }) has
            other named early)

-- A call of TryAcquireLock that is through excludes the others: where a worker with a name has been
-- answered yes, and the tables are as it left them, then another worker is not answered yes up to
-- the end of the time that was asked for, as the column keeps it, whatever statements the driver
-- fails and whether or not other transactions have a lock on the row.
pub try_acquire_lock-Refused_after :
    (times : Times) (id first second : String) (timeout limit : ℕ) (skipped skipped_too : Bool)
    (w v : World)
    → (try_acquire_lock times skipped id first timeout w).0 ≡ ok true
    → v.db ≡ (try_acquire_lock times skipped id first timeout w).1.db
    → first ≢ second
    → first ≢ ""
    → v.clock ≤ times.read (times.kept (expiry w.clock timeout))
    → Refused (try_acquire_lock times skipped_too id second limit v).0
try_acquire_lock-Refused_after times id first second timeout limit skipped skipped_too w v yes_first
      same_tables other named early =
    try_acquire_lock-Refused times id second limit skipped_too first
      (times.kept (expiry w.clock timeout)) v
      (subst
        (λ d. HasLock first (times.kept (expiry w.clock timeout)) (find (by_id id) d.instances))
        (sym same_tables)
        (gained (try_acquire_lock times skipped id first timeout w)
          (try_acquire_lock-Gained times id first timeout skipped w) yes_first))
      other named early
  where
    gained :
        (out : Result Bool × World)
        → Gained first (times.kept (expiry w.clock timeout)) id out
        → out.0 ≡ ok true
        → HasLock first (times.kept (expiry w.clock timeout)) (row id out.1)
    gained (ok true, u) g e = g
    gained (ok false, u) g e = cc
    gained (err x, u) g e = cc
