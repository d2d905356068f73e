-- ===== src/Base/Decimal.antt =====
-- `%d` of `fmt.Sprintf` on a number that is not negative.
use Prim.Native.Nat.{ℕ, zero, suc, ◌+◌, ◌-◌, ◌*◌, ◌/◌, ◌%◌, ◌<◌}
use Prim.Native.Char.{Char, code}
use Prim.Native.String.{String, ◌++◌}
use Prim.Native.String.append
use mathlib.Core.Path.{◌≡◌, refl, ap, sym, ◌∙◌}
use mathlib.Core.Logic.{◌≢◌}
use mathlib.Core.Bool.{Bool, true, false, ◌||◌}
use native.Mathlib.Omega.{arith}
use romancy.Base.Tests.{ltb, ◌==◌, if◌then◌else◌}

digit : ℕ → String
digit n =
    if n == 0
    then "0"
    else if n == 1
    then "1"
    else if n == 2
    then "2"
    else if n == 3
    then "3"
    else if n == 4
    then "4"
    else if n == 5
    then "5"
    else if n == 6
    then "6"
    else if n == 7
    then "7"
    else if n == 8
    then "8"
    else "9"

-- The number has at most as many digits as the fuel, which `itoa` sets to the number plus one.
digits_before : ℕ → ℕ → String → String
digits_before zero n acc = acc
digits_before (suc fuel) n acc =
    let rest = digits_before fuel (n / 10) (digit (n % 10) ++ acc) in
    if ltb n 10 then digit n ++ acc else rest

unfoldable pub itoa : ℕ → String
unfolding digits_before digit
itoa n = digits_before (suc n) n ""

has_dash : String → Bool
has_dash String.[] = false
has_dash (String.◌∷◌ c s) = (code c == 45) || has_dash s

has_dash-append : (s t : String) → has_dash (s ++ t) ≡ has_dash s || has_dash t
unfolding has_dash
has_dash-append String.[] t = rw (append.nil t)
has_dash-append (String.◌∷◌ c s) t = rw (append.cons c s t) (ground (arith, has_dash-append s t))

has_dash-if :
    (b : Bool) (s t : String)
    → has_dash s ≡ false
    → has_dash t ≡ false
    → has_dash (if b then s else t) ≡ false
has_dash-if true s t hs ht = hs
has_dash-if false s t hs ht = ht

digit-has_dash : (n : ℕ) → has_dash (digit n) ≡ false
unfolding has_dash digit
digit-has_dash n = go 0 "0" _ refl (
    go 1 "1" _ refl (
      go 2 "2" _ refl (
        go 3 "3" _ refl (
          go 4 "4" _ refl
            (go 5 "5" _ refl (go 6 "6" _ refl (go 7 "7" _ refl (go 8 "8" _ refl refl))))))))
  where
    go :
        (k : ℕ) (s t : String)
        → has_dash s ≡ false
        → has_dash t ≡ false
        → has_dash (if n == k then s else t) ≡ false
    go k s t = has_dash-if (n == k) s t

has_dash-digit : (n : ℕ) (t : String) → has_dash (digit n ++ t) ≡ has_dash t
has_dash-digit n t = has_dash-append (digit n) t ∙ ap (λ b. b || has_dash t) (digit-has_dash n)

has_dash-digits_before :
    (fuel n : ℕ) (acc : String) → has_dash acc ≡ false → has_dash (digits_before fuel n acc) ≡ false
unfolding digits_before
has_dash-digits_before zero n acc h = h
has_dash-digits_before (suc fuel) n acc h = ground (
  arith,
  has_dash-digit n acc,
  has_dash-digit (n % 10) acc,
  has_dash-digits_before fuel (n / 10) (digit (n % 10) ++ acc),
)

itoa-has_dash : (n : ℕ) → has_dash (itoa n) ≡ false
unfolding itoa has_dash
itoa-has_dash n = has_dash-digits_before (suc n) n "" refl

-- A number's text is no text of the form `%d-...`.
pub itoa-ne-dashed : (n a : ℕ) (rest : String) → itoa n ≢ itoa a ++ ("-" ++ rest)
unfolding has_dash
itoa-ne-dashed n a rest e = cc (
  ap has_dash e,
  itoa-has_dash n,
  has_dash-append (itoa a) ("-" ++ rest),
  itoa-has_dash a,
  has_dash-append "-" rest,
)

-- The number that a text of digits stands for, read after a number.
value_after : ℕ → String → ℕ
value_after n String.[] = n
value_after n (String.◌∷◌ c s) = value_after (n * 10 + (code c - 48)) s

one_digit :
    (n d k : ℕ) (c : Char) (s : String)
    → code c - 48 ≡ k
    → d ≡ k
    → value_after n (String.◌∷◌ c "" ++ s) ≡ value_after (n * 10 + d) s
unfolding value_after
one_digit n d k c s hc hd =
    rw (append.cons c "" s, append.nil s) (ap (λ m. value_after (n * 10 + m) s) (hc ∙ sym hd))

choose :
    (P : String → Type 0) (b : Bool) (s t : String)
    → (b ≡ true → P s)
    → (b ≡ false → P t)
    → P (if b then s else t)
choose P true s t hs ht = hs refl
choose P false s t hs ht = ht refl

value_after-digit :
    (n d : ℕ) (s : String) → d < 10 → value_after n (digit d ++ s) ≡ value_after (n * 10 + d) s
unfolding digit
value_after-digit n d s h =
    let P : String → Type 0 = λ x. value_after n (x ++ s) ≡ value_after (n * 10 + d) s in
    choose P (d == 0) "0" _ (λ e. one_digit n d 0 "0" s refl (ground arith))
      (λ n0.
        choose P (d == 1) "1" _ (λ e. one_digit n d 1 "1" s refl (ground arith))
          (λ n1.
            choose P (d == 2) "2" _ (λ e. one_digit n d 2 "2" s refl (ground arith))
              (λ n2.
                choose P (d == 3) "3" _ (λ e. one_digit n d 3 "3" s refl (ground arith))
                  (λ n3.
                    choose P (d == 4) "4" _ (λ e. one_digit n d 4 "4" s refl (ground arith))
                      (λ n4.
                        choose P (d == 5) "5" _ (λ e. one_digit n d 5 "5" s refl (ground arith))
                          (λ n5.
                            choose P (d == 6) "6" _ (λ e. one_digit n d 6 "6" s refl (ground arith))
                              (λ n6.
                                choose P (d == 7) "7" _
                                  (λ e. one_digit n d 7 "7" s refl (ground arith))
                                  (λ n7.
                                    choose P (d == 8) "8" _
                                      (λ e. one_digit n d 8 "8" s refl (ground arith))
                                      (λ n8. one_digit n d 9 "9" s refl (ground arith))))))))))

value_after-digits_before :
    (fuel n : ℕ) (s : String) → n < fuel → value_after 0 (digits_before fuel n s) ≡ value_after n s
unfolding digits_before
value_after-digits_before zero n s h = absurd (omega arith)
value_after-digits_before (suc fuel) n s h = ground (
  arith,
  value_after-digit 0 n s,
  value_after-digit (n / 10) (n % 10) s,
  value_after-digits_before fuel (n / 10) (digit (n % 10) ++ s),
)

value_after-itoa : (n : ℕ) → value_after 0 (itoa n) ≡ n
unfolding itoa value_after
value_after-itoa n = value_after-digits_before (suc n) n "" (omega arith)

-- Two numbers with one text are one number.
pub itoa-injective : (m n : ℕ) → itoa m ≡ itoa n → m ≡ n
itoa-injective m n e = cc (value_after-itoa m, value_after-itoa n)

tail_of : String → String
tail_of String.[] = ""
tail_of (String.◌∷◌ c s) = s

pub append_cancel : (s t u : String) → s ++ t ≡ s ++ u → t ≡ u
unfolding tail_of
append_cancel String.[] t u e = sym (append.nil t) ∙ e ∙ append.nil u
append_cancel (String.◌∷◌ c s) t u e =
    append_cancel s t u (ap tail_of (sym (append.cons c s t) ∙ e ∙ append.cons c s u))
