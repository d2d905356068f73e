-- ===== src/Base/Search.antt =====
-- `strings.HasPrefix`, `strings.Contains` and `strings.Cut`.
use Prim.Native.Char.{Char, code}
use Prim.Native.String.{String, ◌++◌}
use Prim.Native.String.append
use mathlib.Core.Path.{◌≡◌, refl}
use mathlib.Core.Bool.{Bool, true, false, ◌&&◌, ◌||◌}
use mathlib.Core.Option.{Option, none, some}
use native.Mathlib.Omega.{arith}
use romancy.Base.Tests.{◌==◌, if◌then◌else◌}

unfoldable pub has_prefix : String → String → Bool
has_prefix String.[] s = true
has_prefix (String.◌∷◌ c p) String.[] = false
has_prefix (String.◌∷◌ c p) (String.◌∷◌ d s) = (code c == code d) && has_prefix p s

unfoldable pub contains : String → String → Bool
unfolding has_prefix
contains p String.[] = has_prefix p ""
contains p (String.◌∷◌ c s) = has_prefix p (String.◌∷◌ c s) || contains p s

has_prefix-append : (p q s : String) → has_prefix p q ≡ true → has_prefix p (q ++ s) ≡ true
unfolding has_prefix
has_prefix-append String.[] q s h = refl
has_prefix-append (String.◌∷◌ c p) String.[] s h = cc
has_prefix-append (String.◌∷◌ c p) (String.◌∷◌ d q) s h =
    rw (append.cons d q s) (ground (arith, has_prefix-append p q s))

contains_prefix : (p s : String) → has_prefix p s ≡ true → contains p s ≡ true
unfolding contains
contains_prefix p String.[] h = h
contains_prefix p (String.◌∷◌ c s) h = ground (arith)

-- A text that goes on after a prefix contains it.
pub contains-append : (p q s : String) → has_prefix p q ≡ true → contains p (q ++ s) ≡ true
contains-append p q s h = contains_prefix p (q ++ s) (has_prefix-append p q s h)

unfoldable pub drop_prefix : String → String → String
drop_prefix String.[] s = s
drop_prefix (String.◌∷◌ c p) String.[] = ""
drop_prefix (String.◌∷◌ c p) (String.◌∷◌ d s) = drop_prefix p s

abbrev in_front : Char → Option (String × String) → Option (String × String)
in_front c none = none
in_front c (some (s, t)) = some (String.◌∷◌ c s, t)

-- `strings.Cut`: the texts before and after the first place where `p` stands.
unfoldable pub cut : String → String → Option (String × String)
unfolding has_prefix drop_prefix
cut p String.[] = if has_prefix p "" then some ("", "") else none
cut p (String.◌∷◌ c s) =
    if has_prefix p (String.◌∷◌ c s)
    then some ("", drop_prefix p (String.◌∷◌ c s))
    else in_front c (cut p s)
