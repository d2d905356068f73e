-- ===== src/Storage/History/Numbered.antt =====
-- The constraints of the table `workflow_history` under the methods of internal/storage/sqlite.go
-- that write it: one event for each activity of an instance, and numbers that rise.
use romancy.Base.{
  String, ℕ, ◌≤◌, ◌<◌, ◌≡◌, refl, Bool, true, false, List, [], ◌∷◌, ◌++◌, arith, suc, any, reject,
  if◌then◌else◌,
}
use romancy.Errors.{Error, Result, ok, err}
use romancy.Storage.Models.{Db, HistoryEvent}
use romancy.Storage.History.{same_activity, add_event}
use romancy.Storage.History.Replayed.{Rising}

abbrev pub DistinctEvents : List HistoryEvent → Type 0
DistinctEvents [] = Unit
DistinctEvents (h ∷ hs) =
    (any (same_activity h.instance_id h.activity_id) hs ≡ false) × DistinctEvents hs

abbrev pub Below : ℕ → List HistoryEvent → Type 0
Below n [] = Unit
Below n (h ∷ hs) = (h.id < n) × Below n hs

-- The unique constraint, the order of the numbers, and the counter above them.
abbrev pub Numbered : Db → Type 0
Numbered d =
    DistinctEvents d.history
    × Rising 0 d.history
    × Below d.next_history_id d.history
    × (0 < d.next_history_id)

any_same-append :
    (i k : String) (hs : List HistoryEvent) (e : HistoryEvent)
    → any (same_activity i k) hs ≡ false
    → same_activity i k e ≡ false
    → any (same_activity i k) (hs ++ e ∷ []) ≡ false
any_same-append i k [] e a b = ground arith
any_same-append i k (h ∷ hs) e a b = ground (arith, any_same-append i k hs e)

same_activity-swap :
    (g h : HistoryEvent)
    → same_activity g.instance_id g.activity_id h ≡ same_activity h.instance_id h.activity_id g
same_activity-swap g h = ground (arith)

pub append-DistinctEvents :
    (hs : List HistoryEvent) (e : HistoryEvent)
    → any (same_activity e.instance_id e.activity_id) hs ≡ false
    → DistinctEvents hs
    → DistinctEvents (hs ++ e ∷ [])
append-DistinctEvents [] e a d = (refl, tt)
append-DistinctEvents (h ∷ hs) e a d = (
  any_same-append h.instance_id h.activity_id hs e d.0 (ground (arith, same_activity-swap h e)),
  append-DistinctEvents hs e (ground arith) d.1,
)

append-Rising :
    (k n : ℕ) (hs : List HistoryEvent) (e : HistoryEvent)
    → k < n
    → e.id ≡ n
    → Rising k hs
    → Below n hs
    → Rising k (hs ++ e ∷ [])
append-Rising k n [] e l i r b = (omega arith, tt)
append-Rising k n (h ∷ hs) e l i r b = (r.0, append-Rising h.id n hs e b.0 i r.1 b.1)

append-Below :
    (n : ℕ) (hs : List HistoryEvent) (e : HistoryEvent)
    → e.id ≡ n
    → Below n hs
    → Below (suc n) (hs ++ e ∷ [])
append-Below n [] e i b = (omega arith, tt)
append-Below n (h ∷ hs) e i b = (omega arith, append-Below n hs e i b.1)

add_event-Numbered :
    (t : ℕ) (e : HistoryEvent) (d : Db)
    → any (same_activity e.instance_id e.activity_id) d.history ≡ false
    → Numbered d
    → Numbered (add_event t e d)
add_event-Numbered t e d fresh (distinct, rising, below, positive) = (
  append-DistinctEvents d.history _ fresh distinct,
  append-Rising 0 d.next_history_id d.history _ positive refl rising below,
  append-Below d.next_history_id d.history _ refl below,
  omega arith,
)

any-reject :
    (p q : HistoryEvent → Bool) (hs : List HistoryEvent)
    → any p hs ≡ false
    → any p (reject q hs) ≡ false
any-reject p q [] e = refl
any-reject p q (h ∷ hs) e = ground (arith, any-reject p q hs)

pub reject-DistinctEvents :
    (q : HistoryEvent → Bool) (hs : List HistoryEvent)
    → DistinctEvents hs
    → DistinctEvents (reject q hs)
reject-DistinctEvents q [] d = tt
reject-DistinctEvents q (h ∷ hs) d =
    go (q h) (any-reject _ q hs d.0) (reject-DistinctEvents q hs d.1)
  where
    go :
        (b : Bool)
        → any (same_activity h.instance_id h.activity_id) (reject q hs) ≡ false
        → DistinctEvents (reject q hs)
        → DistinctEvents (if b then reject q hs else h ∷ reject q hs)
    go true a r = r
    go false a r = (a, r)

Rising-weaken : (k n : ℕ) (hs : List HistoryEvent) → k ≤ n → Rising n hs → Rising k hs
Rising-weaken k n [] l r = tt
Rising-weaken k n (h ∷ hs) l r = (omega (arith, r.0), r.1)

pub reject-Rising :
    (q : HistoryEvent → Bool) (k : ℕ) (hs : List HistoryEvent)
    → Rising k hs
    → Rising k (reject q hs)
reject-Rising q k [] r = tt
reject-Rising q k (h ∷ hs) r = go (q h) (reject-Rising q h.id hs r.1)
  where
    go :
        (b : Bool)
        → Rising h.id (reject q hs)
        → Rising k (if b then reject q hs else h ∷ reject q hs)
    go true rest = Rising-weaken k h.id (reject q hs) (omega (arith, r.0)) rest
    go false rest = (r.0, rest)

pub reject-Below :
    (q : HistoryEvent → Bool) (n : ℕ) (hs : List HistoryEvent) → Below n hs → Below n (reject q hs)
reject-Below q n [] b = tt
reject-Below q n (h ∷ hs) b = go (q h) (reject-Below q n hs b.1)
  where
    go : (c : Bool) → Below n (reject q hs) → Below n (if c then reject q hs else h ∷ reject q hs)
    go true rest = rest
    go false rest = (b.0, rest)

-- Every activity's first event is kept, and a later one is dropped or refused.
pub add_if_new :
    (t : ℕ) (e : HistoryEvent) (d : Db) (b : Bool)
    → any (same_activity e.instance_id e.activity_id) d.history ≡ b
    → Numbered d
    → Numbered (if b then d else add_event t e d)
add_if_new t e d true f n = n
add_if_new t e d false f n = add_event-Numbered t e d f n

pub insert_if_new :
    (t : ℕ) (e : HistoryEvent) (d : Db) (b : Bool)
    → any (same_activity e.instance_id e.activity_id) d.history ≡ b
    → Numbered d
    → let r : Result (Unit {0}) × Db =
        if b then (err Error.unique_violation, d) else (ok tt, add_event t e d) in
      Numbered r.1
insert_if_new t e d true f n = n
insert_if_new t e d false f n = add_event-Numbered t e d f n
