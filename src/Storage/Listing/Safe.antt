-- ===== src/Storage/Listing/Safe.antt =====
-- Which paths of a filter come into the text of a query (internal/storage/json_path.go).
use Prim.Native.Char.{Char, char, code}
use text.Mathlib.TextEquality.{Char-path}
use Prim.Native.String.append
use romancy.Base.{
  map, String, ◌<>◌, ℕ, ◌≡◌, refl, sym, subst, ap, ◌∙◌, ◌↔◌, Bool, true, false, List, [], ◌∷◌, ◌==◌,
  ◌≟◌, ◌&&◌, Bool-cases, inl, inr, arith, All, All-order, All-of_order, order_rows,
}
use romancy.Json.{Json}
use romancy.Errors.{Result, ok, err}
use romancy.Storage.Listing.Worded.{condition_of, built-conditions}
use romancy.Storage.Listing.Path.{is_letter, is_word, matches_from, matches_path}
use romancy.Storage.Listing.{
  Texts, Condition, with_condition, json_compare, json_extract, by_path, validate_json_path,
  build_conditions, build_filter_query,
}

abbrev words : String → Bool
words String.[] = true
words (String.◌∷◌ c s) = is_word (code c) && words s

-- A letter or an underscore, and then letters, digits and underscores.
abbrev pub is_name : String → Bool
is_name String.[] = false
is_name (String.◌∷◌ c s) = is_letter (code c) && words s

-- Names with dots between them.
pub data JsonPath : String → Type 0 where
  name : (s : String) → is_name s ≡ true → JsonPath s
  member : (s t p : String) → is_name s ≡ true → JsonPath t → p ≡ s <> ("." <> t) → JsonPath p

data Rest : String → Type 0 where
  done : (s : String) → words s ≡ true → Rest s
  more : (s t p : String) → words s ≡ true → JsonPath t → p ≡ s <> ("." <> t) → Rest p

begin : (c : Char) (s : String) → is_letter (code c) ≡ true → Rest s → JsonPath (String.◌∷◌ c s)
begin c s l (done _ w) = name (String.◌∷◌ c s) (ground arith)
begin c s l (more u t _ w path e) =
    member (String.◌∷◌ c u) t (String.◌∷◌ c s) (ground arith) path
      (ap (String.◌∷◌ c) e ∙ sym (append.cons c u ("." <> t)))

proceed : (c : Char) (s : String) → is_word (code c) ≡ true → Rest s → Rest (String.◌∷◌ c s)
proceed c s l (done _ w) = done (String.◌∷◌ c s) (ground arith)
proceed c s l (more u t _ w path e) =
    more (String.◌∷◌ c u) t (String.◌∷◌ c s) (ground arith) path
      (ap (String.◌∷◌ c) e ∙ sym (append.cons c u ("." <> t)))

dotted : (t : String) → "" <> ("." <> t) ≡ String.◌∷◌ (char 46 tt) t
dotted t =
    append.nil ("." <> t)
    ∙ append.cons (char 46 tt) "" t
    ∙ ap (String.◌∷◌ (char 46 tt)) (append.nil t)

dot_first : (c : Char) (s : String) → code c ≡ b'.' → String.◌∷◌ c s ≡ "" <> ("." <> s)
dot_first c s e = ap (λ (d : Char). String.◌∷◌ d s) (Char-path c (char 46 tt) e) ∙ sym (dotted s)

not_dot : (c : ℕ) → is_word c ≡ true → (c == b'.') ≡ false
not_dot c h = ground arith

mutual
  unfolding matches_from

  read-JsonPath : (s : String) → matches_from true s ≡ true → JsonPath s
  read-JsonPath String.[] h = cc
  read-JsonPath (String.◌∷◌ c s) h = begin c s (ground arith) (read-Rest s (ground arith))

  read-Rest : (s : String) → matches_from false s ≡ true → Rest s
  read-Rest String.[] h = done "" refl
  read-Rest (String.◌∷◌ c s) h = elim (Bool-cases (code c == b'.')) [
    | inl dot ↦
        more "" s (String.◌∷◌ c s) refl (read-JsonPath s (ground arith))
          (dot_first c s (ground arith))
    | inr other ↦ proceed c s (ground arith) (read-Rest s (ground arith))
  ]

matches-words : (s : String) → words s ≡ true → matches_from false s ≡ true
unfolding matches_from
matches-words String.[] w = refl
matches-words (String.◌∷◌ c s) w =
    rw (not_dot (code c) (ground arith)) (ground (arith, matches-words s))

matches-dotted :
    (s t : String)
    → words s ≡ true
    → matches_from true t ≡ true
    → matches_from false (s <> ("." <> t)) ≡ true
unfolding matches_from
matches-dotted String.[] t w h = rw (dotted t) h
matches-dotted (String.◌∷◌ c s) t w h =
    rw (append.cons c s ("." <> t), not_dot (code c) (ground arith))
      (ground (arith, matches-dotted s t))

name-matches : (s : String) → is_name s ≡ true → matches_from true s ≡ true
unfolding matches_from
name-matches String.[] n = cc
name-matches (String.◌∷◌ c s) n = ground (arith, matches-words s)

member-matches :
    (s t : String)
    → is_name s ≡ true
    → matches_from true t ≡ true
    → matches_from true (s <> ("." <> t)) ≡ true
unfolding matches_from
member-matches String.[] t n h = cc
member-matches (String.◌∷◌ c s) t n h =
    rw (append.cons c s ("." <> t)) (ground (arith, matches-dotted s t))

JsonPath-matches : {p : String} → JsonPath p → matches_from true p ≡ true
JsonPath-matches (name s n) = name-matches s n
JsonPath-matches (member s t p n path e) = rw e (member-matches s t n (JsonPath-matches path))

valid-matches :
    (texts : Texts) (p : String) → validate_json_path texts p ≡ ok tt → matches_from true p ≡ true
unfolding validate_json_path matches_path
valid-matches texts p h = ground arith

nothing : matches_from true "" ≡ true → ⊥
unfolding matches_from
nothing h = cc

matches-valid :
    (texts : Texts) (p : String) → matches_from true p ≡ true → validate_json_path texts p ≡ ok tt
unfolding validate_json_path matches_path
matches-valid texts p h = elim (Bool-cases (p ≟ "")) [
  | inl e ↦ absurd (not_empty (ground arith) h)
  | inr e ↦ rw (e, h) refl
]
  where
    not_empty : p ≡ "" → matches_from true p ≡ true → ⊥
    not_empty e k = nothing (subst (λ s. matches_from true s ≡ true) e k)

validate-JsonPath : (texts : Texts) (p : String) → (validate_json_path texts p ≡ ok tt) ↔ JsonPath p
validate-JsonPath texts p = (
  λ h. read-JsonPath p (valid-matches texts p h),
  λ path. matches-valid texts p (JsonPath-matches path),
)

abbrev IsBuilt : Texts → List (String × Json) → Type 0
IsBuilt texts filters =
    (conditions : List Condition) × (build_conditions texts filters ≡ ok conditions)

built-JsonPath :
    (texts : Texts) (filters : List (String × Json)) (conditions : List Condition)
    → build_conditions texts filters ≡ ok conditions
    → All (λ f. JsonPath f.0) filters
unfolding build_conditions
built-JsonPath texts [] conditions h = tt
built-JsonPath texts ((p, v) ∷ filters) conditions h =
    go (built-JsonPath texts filters) (validate_json_path texts p) (build_conditions texts filters)
      refl refl h
  where
    go :
        ((below : List Condition)
          → ◌≡◌ {0} (build_conditions texts filters) (ok below)
          → All {0, 0} {A = String × Json} (λ f. JsonPath f.0) filters)
        → (valid : Result {0} (Unit {0})) (rest : Result {0} (List Condition))
        → ◌≡◌ {0} (validate_json_path texts p) valid
        → ◌≡◌ {0} (build_conditions texts filters) rest
        → ◌≡◌ {0}
            (with_condition valid (json_compare texts (json_extract "input_data" p) v) rest)
            (ok conditions)
        → JsonPath p × All {0, 0} {A = String × Json} (λ f. JsonPath f.0) filters
    go again (err e) rest a b k = cc
    go again (ok _) (err e) a b k = cc
    go again (ok _) (ok below) a b k = ((validate-JsonPath texts p).0 a, again below b)

JsonPath-IsBuilt :
    (texts : Texts) (filters : List (String × Json))
    → All (λ f. JsonPath f.0) filters
    → IsBuilt texts filters
unfolding build_conditions
JsonPath-IsBuilt texts [] paths = ([], refl)
JsonPath-IsBuilt texts ((p, v) ∷ filters) paths =
    let (below, built) = JsonPath-IsBuilt texts filters paths.1 in
    (
      json_compare texts (json_extract "input_data" p) v ∷ below,
      rw ((validate-JsonPath texts p).1 paths.0, built) refl,
    )

-- No text of a caller comes into a query but names with dots between them: the conditions on the
-- input are built exactly where the path of every filter is names with dots between them, a name
-- being a letter or an underscore with letters, underscores and digits after it. The conditions that
-- are built are one for each filter, in the order of the paths: the text is the one for the path and
-- the kind of the value, which is its type and, of the truth values, which one; a number or a text
-- is handed over beside the text.
pub build_filter_query-JsonPath :
    (texts : Texts) (filters : List (String × Json))
    → (((conditions : List Condition) × (build_filter_query texts filters ≡ ok conditions))
        ↔ All (λ f. JsonPath f.0) filters)
      × ((conditions : List Condition)
          → build_filter_query texts filters ≡ ok conditions
          → conditions ≡ map (condition_of texts) (order_rows by_path filters))
unfolding build_filter_query
build_filter_query-JsonPath texts filters = (
  (
    λ built.
        All-of_order by_path (λ f. JsonPath f.0) filters
          (built-JsonPath texts (order_rows by_path filters) built.0 built.1),
    λ paths.
        JsonPath-IsBuilt texts (order_rows by_path filters)
          (All-order by_path (λ f. JsonPath f.0) filters paths),
  ),
  built-conditions texts (order_rows by_path filters),
)
