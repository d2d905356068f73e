-- ===== src/Storage/Listing/Pages.antt =====
-- The loop over the pages of a listing, one page of it, and the last row of a page.
use romancy.Base.{
  String, ℕ, zero, suc, ◌≤◌, ◌<◌, ◌≡◌, refl, ap, ◌∙◌, true, false, Option, none, some, List, [],
  ◌∷◌, ◌++◌, ltb, arith, map, take, take_all, length-take, drop, length, if◌then◌else◌,
}
use romancy.Errors.{Result, ok, err}
use romancy.Storage.Models.{WorkflowInstance}
use romancy.Storage.World.{World}
use romancy.Storage.Instances.{limit_or}
use romancy.Storage.Listing.{
  Texts, ListInstancesOptions, ListedInstance, PaginationResult, listed, token_after, page_of,
  last?, list_instances,
}

-- The last row of a page and what is above it.
pub record Turn (n : ℕ) (xs : List WorkflowInstance) : Type 0 where
  pub front : List WorkflowInstance
  pub row : WorkflowInstance
  pub whole : xs ≡ front ++ row ∷ drop (suc n) xs
  pub last : last? (take (suc n) xs) ≡ some row

pub turn : (n : ℕ) (xs : List WorkflowInstance) → n < length xs → Turn n xs
turn n [] h = absurd (omega arith)
turn zero (x ∷ xs) h = record { front = []; row = x; whole = refl; last = refl }
turn (suc n) (x ∷ []) h = absurd (omega arith)
turn (suc n) (x ∷ y ∷ xs) h =
    let rest = turn n (y ∷ xs) (omega arith) in
    record {
      front = x ∷ rest.front;
      row = rest.row;
      whole = ap (◌∷◌ x) rest.whole;
      last = rest.last;
    }

-- `ListInstances`, called again while there is more; `none` is that the fuel ran out.
abbrev pub pages_after :
    (String → World → Option (Result (List ListedInstance)))
    → Result PaginationResult × World
    → Option (Result (List ListedInstance))
pages_after again (err e, w) = some (err e)
pages_after again (ok p, w) =
    if p.has_more then joined p.instances (again p.next_page_token w) else some (ok p.instances)
  where
    joined :
        List ListedInstance
        → Option (Result (List ListedInstance))
        → Option (Result (List ListedInstance))
    joined above none = none
    joined above (some (err e)) = some (err e)
    joined above (some (ok below)) = some (ok (above ++ below))

unfoldable pub list_pages :
    Texts → ℕ → ListInstancesOptions → String → World → Option (Result (List ListedInstance))
list_pages texts zero opts token w = none
list_pages texts (suc fuel) opts token w =
    pages_after (list_pages texts fuel opts)
      (list_instances texts (record opts { page_token = token }) w)

pub take-take : (n : ℕ) (rows : List WorkflowInstance) → take n (take (suc n) rows) ≡ take n rows
take-take zero rows = refl
take-take (suc n) [] = refl
take-take (suc n) (x ∷ rows) = ap (◌∷◌ x) (take-take n rows)

pub map-take-drop :
    (n : ℕ) (rows : List WorkflowInstance)
    → map listed (take n rows) ++ map listed (drop n rows) ≡ map listed rows
map-take-drop zero rows = refl
map-take-drop (suc n) [] = refl
map-take-drop (suc n) (x ∷ rows) = ap (◌∷◌ (listed x)) (map-take-drop n rows)

pub no_more :
    (n : ℕ) (rows : List WorkflowInstance)
    → length rows ≤ n
    → ltb n (length (take (suc n) rows)) ≡ false
no_more n rows h = rw (take_all (suc n) rows (omega arith)) (ground arith)

pub has_more :
    (n : ℕ) (rows : List WorkflowInstance)
    → n < length rows
    → ltb n (length (take (suc n) rows)) ≡ true
has_more n rows h = lt_true n (length (take (suc n) rows)) (omega (arith, length-take (suc n) rows))
  where
    lt_true : (a b : ℕ) → a < b → ltb a b ≡ true
    lt_true a b k = ground arith

module _ (texts : Texts) (again : String → World → Option (Result (List ListedInstance)))
    (w : World) (rows : List WorkflowInstance) where
  pub after_last :
      (n : ℕ)
      → length rows ≤ n
      → pages_after again (ok (page_of texts n (take (suc n) rows)), w)
        ≡ some (ok (map listed rows))
  after_last n h = rw (no_more n rows h) (
      ap (λ (xs : List WorkflowInstance). some (ok (map listed xs)))
        (take-take n rows ∙ take_all n rows h))

  pub after-Turn :
      (n : ℕ) (t : Turn n rows)
      → suc n < length rows
      → again (token_after texts (some t.row)) w ≡ some (ok (map listed (drop (suc n) rows)))
      → pages_after again (ok (page_of texts (suc n) (take (suc (suc n)) rows)), w)
        ≡ some (ok (map listed rows))
  after-Turn n t h rest = rw (has_more (suc n) rows h) (
      rw (take-take (suc n) rows) (
        rw (t.last, rest)
          (ap (λ (xs : List ListedInstance). some (ok xs)) (map-take-drop (suc n) rows))))

pub limit_suc : (n : ℕ) → (k : ℕ) × (limit_or 50 n ≡ suc k)
limit_suc zero = (49, refl)
limit_suc (suc n) = (n, refl)
