-- ===== src/Storage/Instances/Rows.antt =====
-- The row of an instance under the updates of internal/storage/sqlite.go.
use romancy.Base.{
  String, ℕ, ◌≡◌, refl, subst, Bool, false, Option, none, some, List, [], ◌∷◌, arith, ◌&&◌, same,
  any, count, find, update, if◌then◌else◌,
}
use romancy.Storage.Models.{WorkflowInstance}
use romancy.Storage.Instances.{by_id}

-- What an update makes of one row.
abbrev pub changed :
    (WorkflowInstance → Bool)
    → (WorkflowInstance → WorkflowInstance)
    → WorkflowInstance
    → WorkflowInstance
changed p f r = if p r then f r else r

abbrev pub changed? :
    (WorkflowInstance → Bool)
    → (WorkflowInstance → WorkflowInstance)
    → Option WorkflowInstance
    → Option WorkflowInstance
changed? p f none = none
changed? p f (some r) = some (changed p f r)

-- An update that keeps the key acts on the row of every instance.
pub find-update :
    (id : String) (p : WorkflowInstance → Bool) (f : WorkflowInstance → WorkflowInstance)
    → ((r : WorkflowInstance) → (f r).instance_id ≡ r.instance_id)
    → (rows : List WorkflowInstance)
    → find (by_id id) (update p f rows) ≡ changed? p f (find (by_id id) rows)
find-update id p f keeps [] = refl
find-update id p f keeps (r ∷ rows) = ground (arith, keeps r, find-update id p f keeps rows)

-- The primary key of `workflow_instances`.
abbrev pub DistinctKeys : List WorkflowInstance → Type 0
DistinctKeys [] = Unit
DistinctKeys (r ∷ rows) = (any (by_id r.instance_id) rows ≡ false) × DistinctKeys rows

any-update :
    (id : String) (p : WorkflowInstance → Bool) (f : WorkflowInstance → WorkflowInstance)
    → ((r : WorkflowInstance) → (f r).instance_id ≡ r.instance_id)
    → (rows : List WorkflowInstance) → any (by_id id) (update p f rows) ≡ any (by_id id) rows
any-update id p f keeps [] = refl
any-update id p f keeps (r ∷ rows) = ground (arith, keeps r, any-update id p f keeps rows)

pub update-DistinctKeys :
    (p : WorkflowInstance → Bool) (f : WorkflowInstance → WorkflowInstance)
    → ((r : WorkflowInstance) → (f r).instance_id ≡ r.instance_id)
    → (rows : List WorkflowInstance) → DistinctKeys rows
    → DistinctKeys (update p f rows)
update-DistinctKeys p f keeps [] d = tt
update-DistinctKeys p f keeps (r ∷ rows) d = ground (
  arith,
  keeps r,
  any-update r.instance_id p f keeps rows,
  update-DistinctKeys p f keeps rows d.1,
)

-- How many rows of one instance pass a test: as the one row says.
abbrev pub passes : (WorkflowInstance → Bool) → Option WorkflowInstance → ℕ
passes c none = 0
passes c (some r) = if c r then 1 else 0

count_absent :
    (id : String) (c : WorkflowInstance → Bool) (rows : List WorkflowInstance)
    → any (by_id id) rows ≡ false
    → count (λ r. by_id id r && c r) rows ≡ 0
count_absent id c [] h = refl
count_absent id c (r ∷ rows) h = ground (arith, count_absent id c rows)

pub count-find :
    (id : String) (c : WorkflowInstance → Bool) (rows : List WorkflowInstance)
    → DistinctKeys rows
    → count (λ r. by_id id r && c r) rows ≡ passes c (find (by_id id) rows)
count-find id c [] d = refl
count-find id c (r ∷ rows) d = elim (same r.instance_id id) [
  | yes e ↦ ground (arith, count_absent id c rows (subst (λ k. any (by_id k) rows ≡ false) e d.0))
  | no n ↦ ground (arith, count-find id c rows d.1)
]

pub update_none :
    (p : WorkflowInstance → Bool) (f : WorkflowInstance → WorkflowInstance)
    (rows : List WorkflowInstance)
    → count p rows ≡ 0
    → update p f rows ≡ rows
update_none p f [] h = refl
update_none p f (r ∷ rows) h = ground (arith, update_none p f rows)

-- The row that is found has the key that was looked for.
abbrev pub HasKey : String → Option WorkflowInstance → Type 0
HasKey id none = Unit
HasKey id (some r) = r.instance_id ≡ id

pub find-HasKey : (id : String) (rows : List WorkflowInstance) → HasKey id (find (by_id id) rows)
find-HasKey id [] = tt
find-HasKey id (r ∷ rows) = ground (arith, find-HasKey id rows)
