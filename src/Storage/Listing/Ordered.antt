-- ===== src/Storage/Listing/Ordered.antt =====
-- The order of the rows in a listing (`ORDER BY` in `ListInstances` of internal/storage/sqlite.go).
use romancy.Base.{
  ◌≡◌, Bool, true, false, List, [], ◌∷◌, arith, Bool-cases, inl, inr, any, select, text_lt_irrefl,
  text_lt_trans, text_lt_total, All, All-select, AreApart,
}
use romancy.Storage.Models.{WorkflowInstance}
use romancy.Storage.Instances.{by_id}
use romancy.Storage.Instances.Rows.{DistinctKeys}
use romancy.Storage.Listing.{stands_before}

pub stands_before_irrefl : (r : WorkflowInstance) → stands_before r r ≡ false
stands_before_irrefl r = ground (arith, text_lt_irrefl r.instance_id)

pub stands_before_trans :
    (r s t : WorkflowInstance)
    → stands_before r s ≡ true
    → stands_before s t ≡ true
    → stands_before r t ≡ true
stands_before_trans r s t h k =
    ground (arith, text_lt_trans t.instance_id s.instance_id r.instance_id)

pub apart_from :
    (r : WorkflowInstance) (rows : List WorkflowInstance)
    → any (by_id r.instance_id) rows ≡ false
    → All (λ s. stands_before r s ≡ false → stands_before s r ≡ true) rows
apart_from r [] h = tt
apart_from r (s ∷ rows) h = (
  λ below. ground (arith, text_lt_total s.instance_id r.instance_id),
  apart_from r rows (ground arith),
)

pub DistinctKeys-AreApart :
    (rows : List WorkflowInstance) → DistinctKeys rows → AreApart stands_before rows
DistinctKeys-AreApart [] d = tt
DistinctKeys-AreApart (r ∷ rows) d = (apart_from r rows d.0, DistinctKeys-AreApart rows d.1)

pub AreApart-select :
    (p : WorkflowInstance → Bool) (rows : List WorkflowInstance)
    → AreApart stands_before rows
    → AreApart stands_before (select p rows)
AreApart-select p [] a = tt
AreApart-select p (r ∷ rows) a = elim (Bool-cases (p r)) [
  | inl e ↦ rw e (
    All-select (λ s. stands_before r s ≡ false → stands_before s r ≡ true) p rows a.0,
    AreApart-select p rows a.1,
  )
  | inr e ↦ rw e (AreApart-select p rows a.1)
]
