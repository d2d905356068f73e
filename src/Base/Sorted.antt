-- ===== src/Base/Sorted.antt =====
-- Rows in the order of `ORDER BY`, where no two rows are equal in it, and the rows after one of them.
use Prim.Native.Nat.{suc}
use mathlib.Core.Path.{◌≡◌, refl, sym, ap, ◌∙◌}
use mathlib.Core.Logic.{inl, inr}
use mathlib.Core.Bool.{Bool, true, false, ◌&&◌}
use mathlib.Core.List.{List, [], ◌∷◌, ◌++◌}
use native.Mathlib.Omega.{arith}
use romancy.Base.Tests.{if◌then◌else◌, Bool-cases}
use romancy.Base.Lists.{select, length}

abbrev pub All {ℓ κ} : {A : Type ℓ} → (A → Type κ) → List A → Type κ
All P [] = Unit
All P (x ∷ xs) = P x × All P xs

module _ {ℓ} {A : Type ℓ} where
  pub All-select {κ} :
      (P : A → Type κ) (p : A → Bool) (xs : List A) → All P xs → All P (select p xs)
  All-select P p [] h = tt
  All-select P p (x ∷ xs) h = elim (Bool-cases (p x)) [
    | inl e ↦ rw e (h.0, All-select P p xs h.1)
    | inr e ↦ rw e (All-select P p xs h.1)
  ]

  pub select-true : (xs : List A) → select (λ x. true) xs ≡ xs
  select-true [] = refl
  select-true (x ∷ xs) = ap (◌∷◌ x) (select-true xs)

  pub select-select :
      (p q : A → Bool) (xs : List A) → select q (select p xs) ≡ select (λ x. p x && q x) xs
  select-select p q [] = refl
  select-select p q (x ∷ xs) = ground (arith, select-select p q xs)

-- `before x y`: the row x stands above the row y.
module _ {ℓ} {A : Type ℓ} (before : A → A → Bool) where
  unfoldable pub insert_row : A → List A → List A
  insert_row r [] = r ∷ []
  insert_row r (s ∷ rows) = if before r s then r ∷ s ∷ rows else s ∷ insert_row r rows

  unfoldable pub order_rows : List A → List A
  unfolding insert_row
  order_rows [] = []
  order_rows (r ∷ rows) = insert_row r (order_rows rows)

  -- Every row stands above those that follow it.
  abbrev pub IsOrdered : List A → Type 0
  IsOrdered [] = Unit
  IsOrdered (r ∷ rows) = All (λ s. before r s ≡ true) rows × IsOrdered rows

  -- Of two rows one stands above the other.
  abbrev pub AreApart : List A → Type 0
  AreApart [] = Unit
  AreApart (r ∷ rows) = All (λ s. before r s ≡ false → before s r ≡ true) rows × AreApart rows

  length-insert_row : (r : A) (rows : List A) → length (insert_row r rows) ≡ suc (length rows)
  unfolding insert_row
  length-insert_row r [] = refl
  length-insert_row r (s ∷ rows) = ground (arith, length-insert_row r rows)

  pub length-order_rows : (rows : List A) → length (order_rows rows) ≡ length rows
  unfolding order_rows
  length-order_rows [] = refl
  length-order_rows (r ∷ rows) =
      length-insert_row r (order_rows rows) ∙ ap suc (length-order_rows rows)

  All-insert {κ} :
      (P : A → Type κ) (r : A) (rows : List A) → P r → All P rows → All P (insert_row r rows)
  unfolding insert_row
  All-insert P r [] h k = (h, tt)
  All-insert P r (s ∷ rows) h k = elim (Bool-cases (before r s)) [
    | inl e ↦ rw e (h, k)
    | inr e ↦ rw e (k.0, All-insert P r rows h k.1)
  ]

  All-of_insert {κ} :
      (P : A → Type κ) (r : A) (rows : List A) → All P (insert_row r rows) → P r × All P rows
  unfolding insert_row
  All-of_insert P r [] h = (h.0, tt)
  All-of_insert P r (s ∷ rows) h = go (All-of_insert P r rows) (before r s) h
    where
      go :
          (All P (insert_row r rows) → P r × All P rows)
          → (b : Bool) → All P (if b then r ∷ s ∷ rows else s ∷ insert_row r rows)
          → P r × All P (s ∷ rows)
      go below true k = (k.0, k.1)
      go below false k = let rest = below k.1 in (rest.0, (k.0, rest.1))

  pub All-of_order {κ} : (P : A → Type κ) (rows : List A) → All P (order_rows rows) → All P rows
  unfolding order_rows
  All-of_order P [] h = tt
  All-of_order P (r ∷ rows) h =
      let parts = All-of_insert P r (order_rows rows) h in (parts.0, All-of_order P rows parts.1)

  pub All-order {κ} : (P : A → Type κ) (rows : List A) → All P rows → All P (order_rows rows)
  unfolding order_rows
  All-order P [] h = tt
  All-order P (r ∷ rows) h = All-insert P r (order_rows rows) h.0 (All-order P rows h.1)

  module _ (trans : (x y z : A) → before x y ≡ true → before y z ≡ true → before x z ≡ true) where
    above-All :
        (r s : A) (rows : List A)
        → before r s ≡ true
        → All (λ x. before s x ≡ true) rows
        → All (λ x. before r x ≡ true) rows
    above-All r s [] h k = tt
    above-All r s (x ∷ rows) h k = (trans r s x h k.0, above-All r s rows h k.1)

    insert-IsOrdered :
        (r : A) (rows : List A)
        → All (λ s. before r s ≡ false → before s r ≡ true) rows
        → IsOrdered rows
        → IsOrdered (insert_row r rows)
    unfolding insert_row
    insert-IsOrdered r [] apart o = (tt, tt)
    insert-IsOrdered r (s ∷ rows) apart o = elim (Bool-cases (before r s)) [
      | inl e ↦ rw e ((e, above-All r s rows e o.0), o)
      | inr e ↦ rw e (
        All-insert (λ x. before s x ≡ true) r rows (apart.0 e) o.0,
        insert-IsOrdered r rows apart.1 o.1,
      )
    ]

    pub order-IsOrdered : (rows : List A) → AreApart rows → IsOrdered (order_rows rows)
    unfolding order_rows
    order-IsOrdered [] apart = tt
    order-IsOrdered (r ∷ rows) apart =
        insert-IsOrdered r (order_rows rows)
          (All-order (λ s. before r s ≡ false → before s r ≡ true) rows apart.0)
          (order-IsOrdered rows apart.1)

    insert_first :
        (r : A) (rows : List A) → All (λ x. before r x ≡ true) rows → insert_row r rows ≡ r ∷ rows
    unfolding insert_row
    insert_first r [] h = refl
    insert_first r (s ∷ rows) h = rw (h.0) refl

    select-insert_kept :
        (p : A → Bool) (r : A) (rows : List A)
        → p r ≡ true
        → IsOrdered rows
        → select p (insert_row r rows) ≡ insert_row r (select p rows)
    unfolding insert_row
    select-insert_kept p r [] h o = rw h refl
    select-insert_kept p r (s ∷ rows) h o = elim (Bool-cases (before r s)) [
      | inl e ↦ elim (Bool-cases (p s)) [
        | inl k ↦ rw (e, h, k, e) refl
        | inr k ↦
            rw (e, h, k)
              (sym (
                insert_first r (select p rows)
                  (All-select (λ x. before r x ≡ true) p rows (above-All r s rows e o.0))))
      ]
      | inr e ↦ elim (Bool-cases (p s)) [
        | inl k ↦ rw (e, k, e) (ap (◌∷◌ s) (select-insert_kept p r rows h o.1))
        | inr k ↦ rw (e, k) (select-insert_kept p r rows h o.1)
      ]
    ]

    select-insert_left :
        (p : A → Bool) (r : A) (rows : List A)
        → p r ≡ false
        → select p (insert_row r rows) ≡ select p rows
    unfolding insert_row
    select-insert_left p r [] h = rw h refl
    select-insert_left p r (s ∷ rows) h = ground (arith, select-insert_left p r rows h)

    -- The rows that a query selects are in the order of all.
    pub order-select :
        (p : A → Bool) (rows : List A)
        → AreApart rows
        → order_rows (select p rows) ≡ select p (order_rows rows)
    unfolding order_rows
    order-select p [] apart = refl
    order-select p (r ∷ rows) apart = elim (Bool-cases (p r)) [
      | inl e ↦
          rw (e, order_rows)
            (ap (insert_row r) (order-select p rows apart.1)
              ∙ sym (select-insert_kept p r (order_rows rows) e (order-IsOrdered rows apart.1)))
      | inr e ↦
          rw (e) (order-select p rows apart.1 ∙ sym (select-insert_left p r (order_rows rows) e))
    ]

    -- What stands below a row of an ordered list is what the condition of the next page selects.
    pub select-before :
        ((x : A) → before x x ≡ false)
        → (above : List A) (x : A) (below : List A) → IsOrdered (above ++ x ∷ below)
        → select (before x) (above ++ x ∷ below) ≡ below
    select-before irrefl [] x below o = rw (irrefl x) (select_all below o.0)
      where
        select_all :
            (rows : List A) → All (λ s. before x s ≡ true) rows → select (before x) rows ≡ rows
        select_all [] h = refl
        select_all (s ∷ rows) h = rw (h.0) (ap (◌∷◌ s) (select_all rows h.1))
    select-before irrefl (y ∷ above) x below o = elim (Bool-cases (before x y)) [
      | inl e ↦ cc (trans x y x e (head_of above o.0), irrefl x)
      | inr e ↦ rw e (select-before irrefl above x below o.1)
    ]
      where
        head_of :
            (rows : List A) → All (λ s. before y s ≡ true) (rows ++ x ∷ below) → before y x ≡ true
        head_of [] h = h.0
        head_of (s ∷ rows) h = head_of rows h.1
