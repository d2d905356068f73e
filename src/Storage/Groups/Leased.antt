-- ===== src/Storage/Groups/Leased.antt =====
-- The system lock by which a leader is chosen (TryAcquireSystemLock of internal/storage/sqlite.go),
-- under any clock and any failures of the SQL driver.
use romancy.Base.{
  String, ℕ, ◌+◌, ◌/◌, ◌≤◌, ◌≡◌, ◌≢◌, refl, subst, inl, inr, Bool-cases, Bool, true, false, Option,
  none, some, List, [], ◌∷◌, ◌++◌, any, find, update, ltb, find-none-append, arith, if◌then◌else◌,
}
use romancy.Errors.{Result, ok, err}
use romancy.Storage.Models.{Db, SystemLock}
use romancy.Storage.World.{World, seconds, exec, now, pure, ◌>>=◌}
use romancy.Storage.World.Keeps.{statement_cases}
use romancy.Storage.Groups.{is_lock, may_take, take_lock, try_acquire_system_lock}

-- The worker has the lock, to the end of the given second at least.
abbrev pub Leads : String → ℕ → Option SystemLock → Type 0
Leads worker e none = ⊥
Leads worker e (some l) = (l.locked_by ≡ worker) × (e ≤ l.lock_expires_at)

abbrev pub held_lock : String → Db → Option SystemLock
held_lock name d = find (is_lock name) d.system_locks

-- What an answer says: a yes is the lock.
abbrev Taken : String → String → ℕ → Result Bool × World → Type 0
Taken name worker e (ok true, v) = Leads worker e (held_lock name v.db)
Taken name worker e (ok false, v) = Unit
Taken name worker e (err x, v) = Unit

abbrev new_lock : ℕ → String → String → ℕ → SystemLock
new_lock t name worker timeout = record {
  lock_name = name;
  locked_by = worker;
  locked_at = t;
  lock_expires_at = t + timeout;
}

pub find-update_lock :
    (name : String) (l : SystemLock) (rows : List SystemLock)
    → l.lock_name ≡ name
    → any (is_lock name) rows ≡ true
    → find (is_lock name) (update (is_lock name) (λ _. l) rows) ≡ some l
find-update_lock name l [] n a = cc
find-update_lock name l (x ∷ rows) n a = ground (arith, find-update_lock name l rows n)

pub find-some-any :
    (name : String) (rows : List SystemLock) (l : SystemLock)
    → find (is_lock name) rows ≡ some l
    → any (is_lock name) rows ≡ true
find-some-any name [] l e = cc
find-some-any name (x ∷ rows) l e = ground (arith, find-some-any name rows l)

-- The rows after the upsert, by the row of the lock before it.
abbrev after_take : ℕ → String → String → ℕ → Db → Option SystemLock → ℕ × Db
after_take t name worker timeout d found = elim found [
  | none ↦ (1, record d { system_locks = d.system_locks ++ new_lock t name worker timeout ∷ [] })
  | some held ↦
      if may_take t worker held
      then (
        1,
        record d {
          system_locks = update (is_lock name) (λ _. new_lock t name worker timeout) d.system_locks;
        },
      )
      else (0, d)
]

take_lock-Leads :
    (t : ℕ) (name worker : String) (timeout : ℕ) (d : Db)
    → ltb 0 (take_lock t name worker timeout d).0 ≡ true
    → Leads worker (t + timeout) (held_lock name (take_lock t name worker timeout d).1)
take_lock-Leads t name worker timeout d = go (held_lock name d) refl
  where
    go :
        (found : Option SystemLock)
        → held_lock name d ≡ found
        → ltb 0 (after_take t name worker timeout d found).0 ≡ true
        → Leads worker (t + timeout) (held_lock name (after_take t name worker timeout d found).1)
    go none e won =
        rw (find-none-append (is_lock name) d.system_locks (new_lock t name worker timeout ∷ []) e)
          (ground arith)
    go (some l) e won = elim (Bool-cases (may_take t worker l)) [
      | inl may ↦
          rw
            (
              may,
              find-update_lock name (new_lock t name worker timeout) d.system_locks refl
                  (find-some-any name d.system_locks l e),
            )
            (refl, omega arith)
      | inr may_not ↦ absurd (ground arith)
    ]

-- Another worker's attempt while the lock is held.
refused_attempt :
    (t : ℕ) (name worker rival : String) (timeout e : ℕ) (d : Db)
    → Leads worker e (held_lock name d)
    → t ≤ e
    → rival ≢ worker
    → take_lock t name rival timeout d ≡ (0, d)
refused_attempt t name worker rival timeout e d leads before other = go (held_lock name d) leads
  where
    go :
        (found : Option SystemLock)
        → Leads worker e found
        → after_take t name rival timeout d found ≡ (0, d)
    go none l = absurd l
    go (some l) (by, until) = ground (arith, other)

abbrev is_yes : Result Bool → Bool
is_yes (ok b) = b
is_yes (err e) = false

-- Attempts of workers, each at a time in nanoseconds and for a number of seconds, and the answers.
unfoldable pub run_attempts : String → List (ℕ × String × ℕ) → World → List Bool × World
run_attempts name [] w = ([], w)
run_attempts name ((clock, worker, timeout) ∷ attempts) w =
    let (r, v) = try_acquire_system_lock name worker timeout (record w { clock = clock }) in
    let (answers, u) = run_attempts name attempts v in (is_yes r ∷ answers, u)

-- Other workers than the given one, not after the end of the given second.
abbrev pub Rivals : String → ℕ → List (ℕ × String × ℕ) → Type 0
Rivals worker e [] = Unit
Rivals worker e ((clock, rival, timeout) ∷ attempts) =
    (clock / 1000000000 ≤ e) × (rival ≢ worker) × Rivals worker e attempts

-- A rival's attempt says no, and the lock stays.
abbrev Refuses : String → String → ℕ → Result Bool × World → Type 0
Refuses name worker e (ok b, v) = (b ≡ false) × Leads worker e (held_lock name v.db)
Refuses name worker e (err x, v) = Leads worker e (held_lock name v.db)

try_acquire-Taken :
    (name worker : String) (timeout : ℕ) (w : World)
    → Taken name worker (seconds w + timeout) (try_acquire_system_lock name worker timeout w)
unfolding try_acquire_system_lock ◌>>=◌ exec now pure
try_acquire-Taken name worker timeout w =
    statement_cases
      (λ out.
        Taken name worker (seconds w + timeout) (((λ (u : World). out) >>= λ n. pure (ltb 0 n)) w))
      _ w (λ rest. tt)
      (λ rest.
        go rest (ltb 0 (take_lock (seconds w) name worker timeout w.db).0)
          (take_lock-Leads (seconds w) name worker timeout w.db))
  where
    go :
        (rest : List Bool) (b : Bool)
        → (b ≡ true
            → Leads worker
                (seconds w + timeout)
                (held_lock name (take_lock (seconds w) name worker timeout w.db).1))
        → Taken name worker (seconds w + timeout) (
          ok b,
          record w { db = (take_lock (seconds w) name worker timeout w.db).1; faults = rest },
        )
    go rest true leads = leads refl
    go rest false leads = tt

try_acquire-Refuses :
    (name worker rival : String) (timeout e : ℕ) (w : World)
    → Leads worker e (held_lock name w.db)
    → seconds w ≤ e
    → rival ≢ worker
    → Refuses name worker e (try_acquire_system_lock name rival timeout w)
unfolding try_acquire_system_lock ◌>>=◌ exec now pure
try_acquire-Refuses name worker rival timeout e w leads before other =
    statement_cases
      (λ out. Refuses name worker e (((λ (u : World). out) >>= λ n. pure (ltb 0 n)) w)) _ w
      (λ rest. leads)
      (λ rest.
        rw (refused_attempt (seconds w) name worker rival timeout e w.db leads before other)
          (refl, leads))

run_attempts-refused :
    (name worker : String) (e : ℕ) (attempts : List (ℕ × String × ℕ)) (w : World)
    → Leads worker e (held_lock name w.db)
    → Rivals worker e attempts
    → (any (λ b. b) (run_attempts name attempts w).0 ≡ false)
      × Leads worker e (held_lock name (run_attempts name attempts w).1.db)
unfolding run_attempts
run_attempts-refused name worker e [] w leads rivals = (refl, leads)
run_attempts-refused name worker e ((clock, rival, timeout) ∷ attempts) w leads rivals =
    go (try_acquire_system_lock name rival timeout (record w { clock = clock })).0
      (try_acquire_system_lock name rival timeout (record w { clock = clock })).1
      (try_acquire-Refuses name worker rival timeout e (record w { clock = clock }) leads rivals.0
        rivals.1)
      (λ v l. run_attempts-refused name worker e attempts v l rivals.2)
  where
    go :
        (r : Result Bool) (v : World)
        → Refuses name worker e (r, v)
        → ((v : World)
            → Leads worker e (held_lock name v.db)
            → (any (λ b. b) (run_attempts name attempts v).0 ≡ false)
              × Leads worker e (held_lock name (run_attempts name attempts v).1.db))
        → (any (λ b. b) (is_yes r ∷ (run_attempts name attempts v).0) ≡ false)
          × Leads worker e (held_lock name (run_attempts name attempts v).1.db)
    go (ok b) v (no_answer, l) ih = rw no_answer (ih v l)
    go (err x) v l ih = ih v l

-- A system lock is one worker's for its lease. Where a worker's attempt on a system lock is answered yes, then, however
-- attempts of other workers follow, at any times up to the end of the seconds that were asked for,
-- and with any failures of the driver, none of them is answered yes, and the worker still has the
-- lock at the end.
pub try_acquire_system_lock-Leads :
    (name worker : String) (timeout : ℕ) (w v : World) (attempts : List (ℕ × String × ℕ))
    → try_acquire_system_lock name worker timeout w ≡ (ok true, v)
    → Rivals worker (seconds w + timeout) attempts
    → (any (λ b. b) (run_attempts name attempts v).0 ≡ false)
      × Leads worker (seconds w + timeout) (held_lock name (run_attempts name attempts v).1.db)
try_acquire_system_lock-Leads name worker timeout w v attempts won rivals =
    run_attempts-refused name worker (seconds w + timeout) attempts v
      (subst (Taken name worker (seconds w + timeout)) won
        (try_acquire-Taken name worker timeout w))
      rivals
