-- ===== src/Storage/Groups.antt =====
-- internal/storage/sqlite.go, the group manager and the system lock manager.
pub mod Members
pub mod Leased
use romancy.Base.{
  String, ℕ, ◌+◌, Bool, none, some, List, [], ◌∷◌, ◌++◌, ltb, ◌≟◌, ◌&&◌, ◌||◌, select, reject, any,
  map, find, update, if◌then◌else◌,
}
use romancy.Storage.Models.{Db, GroupMembership, SystemLock}
use romancy.Storage.World.{M, pure, ◌>>=◌, query, exec, exec_, now}

abbrev pub is_member : String → String → GroupMembership → Bool
is_member instance_id group m = (m.instance_id ≟ instance_id) && (m.group_name ≟ group)

-- `ON CONFLICT (instance_id, group_name) DO NOTHING`
unfoldable pub join_group : String → String → M (Unit {0})
join_group instance_id group = exec_ λ d.
    if any (is_member instance_id group) d.memberships then d else record d {
      memberships = d.memberships ++ record { instance_id = instance_id; group_name = group } ∷ [];
    }

unfoldable pub leave_group : String → String → M (Unit {0})
leave_group instance_id group =
    exec_ λ d. record d { memberships = reject (is_member instance_id group) d.memberships }

unfoldable pub get_group_members : String → M (List String)
get_group_members group =
    query λ d. map (λ m. m.instance_id) (select (λ m. m.group_name ≟ group) d.memberships)

unfoldable pub leave_all_groups : String → M (Unit {0})
leave_all_groups instance_id =
    exec_ λ d. record d { memberships = reject (λ m. m.instance_id ≟ instance_id) d.memberships }

abbrev pub is_lock : String → SystemLock → Bool
is_lock name l = l.lock_name ≟ name

-- The `WHERE` of the upsert: the held lock has expired, or is the same worker's.
abbrev pub may_take : ℕ → String → SystemLock → Bool
may_take t worker l = ltb l.lock_expires_at t || (l.locked_by ≟ worker)

abbrev pub take_lock : ℕ → String → String → ℕ → Db → ℕ × Db
take_lock t name worker timeout d =
    let row : SystemLock = record {
      lock_name = name;
      locked_by = worker;
      locked_at = t;
      lock_expires_at = t + timeout;
    } in
    elim (find (is_lock name) d.system_locks) [
      | none ↦ (1, record d { system_locks = d.system_locks ++ row ∷ [] })
      | some held ↦
          if may_take t worker held
          then (1, record d { system_locks = update (is_lock name) (λ _. row) d.system_locks })
          else (0, d)
    ]

unfoldable pub try_acquire_system_lock : String → String → ℕ → M Bool
try_acquire_system_lock name worker timeout = do
  t ← now
  affected ← exec (take_lock t name worker timeout)
  pure (ltb 0 affected)

unfoldable pub release_system_lock : String → String → M (Unit {0})
release_system_lock name worker = exec_ λ d. record d {
  system_locks = reject (λ l. is_lock name l && (l.locked_by ≟ worker)) d.system_locks;
}

unfoldable pub cleanup_expired_system_locks : M (Unit {0})
cleanup_expired_system_locks = do
  t ← now
  exec_ λ d. record d { system_locks = reject (λ l. ltb l.lock_expires_at t) d.system_locks }
