-- ===== src/Json/Reread.antt =====
-- encoding/json where a value is decoded into an `any` and encoded again: a number becomes the
-- float64 next to it, and is written with the fewest digits that give this float64 back. Numbers
-- beyond the range of a float64 are left out. An object has each key once.
use romancy.Base.{
  ℕ, zero, suc, ◌+◌, ◌*◌, ◌/◌, ◌%◌, ◌^◌, ◌≤◌, ◌≡◌, refl, ap, Bool, true, false, Option, none, some,
  leb, ltb, ◌==◌, ◌&&◌, ◌||◌, arith, if◌then◌else◌,
}
use romancy.Json.{Json, null, bool, num, str, arr, obj, Items, nil, cons, Fields, end, field}

-- How often a number is halved until it has 53 bits.
exponent : (fuel : ℕ) → ℕ → ℕ
exponent zero n = 0
exponent (suc fuel) n =
    let rest : ℕ = exponent fuel (n / 2) in if leb (2 ^ 53) n then suc rest else 0

-- A number in steps of the unit, to the nearest step; in the middle to the even one.
to_step : (unit n : ℕ) → ℕ
to_step unit n =
    if ltb unit (n % unit * 2) || ((n % unit * 2 == unit) && (n / unit % 2 == 1))
    then (n / unit + 1) * unit
    else n / unit * unit

-- The conversion to a float64.
unfoldable pub nearest_float : ℕ → ℕ
unfolding to_step exponent
nearest_float n = to_step (2 ^ exponent 1024 n) n

-- The number with as many zeros at the end as there may be, at most the given ones.
fewest_digits : (zeros : ℕ) → ℕ → ℕ
fewest_digits zero n = n
fewest_digits (suc zeros) n =
    let rest : ℕ = fewest_digits zeros n in
    let shorter : ℕ = to_step (10 ^ suc zeros) n in
    if nearest_float shorter == n then shorter else rest

unfoldable pub through_float : ℕ → ℕ
unfolding nearest_float fewest_digits to_step
through_float n = if leb n (2 ^ 53) then n else fewest_digits 309 (nearest_float n)

unfoldable mutual
  unfolding through_float

  pub reread : Json → Json
  reread null = null
  reread (bool b) = bool b
  reread (num n) = num (through_float n)
  reread (str s) = str s
  reread (arr items) = arr (reread_items items)
  reread (obj fields) = obj (reread_fields fields)

  pub reread_items : Items → Items
  reread_items nil = nil
  reread_items (cons j items) = cons (reread j) (reread_items items)

  pub reread_fields : Fields → Fields
  reread_fields end = end
  reread_fields (field key j rest) = field key (reread j) (reread_fields rest)

abbrev pub reread_option : Option Json → Option Json
reread_option none = none
reread_option (some j) = some (reread j)

-- Numbers that a float64 holds: those up to 2 ^ 53.
unfoldable mutual
  pub IsExact : Json → Type 0
  IsExact (num n) = n ≤ 2 ^ 53
  IsExact (arr items) = AreExact items
  IsExact (obj fields) = HaveExact fields
  IsExact _ = Unit

  pub AreExact : Items → Type 0
  AreExact nil = Unit
  AreExact (cons j items) = IsExact j × AreExact items

  pub HaveExact : Fields → Type 0
  HaveExact end = Unit
  HaveExact (field key j rest) = IsExact j × HaveExact rest

abbrev pub IsExactOption : Option Json → Type 0
IsExactOption none = Unit
IsExactOption (some j) = IsExact j

leb-true : (n m : ℕ) → n ≤ m → leb n m ≡ true
leb-true n m h = ground (arith, h)

first_branch : (b : Bool) (x y : ℕ) → b ≡ true → (if b then x else y) ≡ x
first_branch true x y e = refl
first_branch false x y e = cc

through_float_exact : (n : ℕ) → n ≤ 2 ^ 53 → through_float n ≡ n
unfolding through_float
through_float_exact n h = first_branch _ n _ (leb-true n (2 ^ 53) h)

mutual
  unfolding reread IsExact

  -- What has such numbers only is left as it is.
  pub reread-IsExact : (j : Json) → IsExact j → reread j ≡ j
  reread-IsExact null e = refl
  reread-IsExact (bool b) e = refl
  reread-IsExact (num n) e = ap num (through_float_exact n e)
  reread-IsExact (str s) e = refl
  reread-IsExact (arr items) e = ap arr (reread_items-AreExact items e)
  reread-IsExact (obj fields) e = ap obj (reread_fields-HaveExact fields e)

  reread_items-AreExact : (items : Items) → AreExact items → reread_items items ≡ items
  reread_items-AreExact nil e = refl
  reread_items-AreExact (cons j items) e =
      rw (reread-IsExact j e.0, reread_items-AreExact items e.1) refl

  pub reread_fields-HaveExact : (fields : Fields) → HaveExact fields → reread_fields fields ≡ fields
  reread_fields-HaveExact end e = refl
  reread_fields-HaveExact (field key j rest) e =
      rw (reread-IsExact j e.0, reread_fields-HaveExact rest e.1) refl

pub reread_option-IsExact : (o : Option Json) → IsExactOption o → reread_option o ≡ o
reread_option-IsExact none e = refl
reread_option-IsExact (some j) e = ap some (reread-IsExact j e)
