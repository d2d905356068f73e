-- ===== src/Storage/Listing/Worded.antt =====
-- What the conditions on the input are (internal/storage/json_path.go): of a value they tell the
-- type alone, or which truth value it is.
use romancy.Base.{String, ◌<>◌, ◌≡◌, refl, sym, ap, ◌∙◌, List, [], ◌∷◌, true, false, map}
use romancy.Json.{Json, null, bool, num, str, arr, obj}
use romancy.Json.Reread.{nearest_float}
use romancy.Errors.{Result, ok, err}
use romancy.Storage.Listing.{
  Texts, Condition, with_condition, json_compare, json_extract, validate_json_path,
  build_conditions,
}

ok-injective : {a b : List Condition} → ok a ≡ ok b → a ≡ b
ok-injective e = ap (λ r. elim r [ ok x ↦ x | err _ ↦ [] ]) e

-- What a query tells of a value: its type, and which of the two truth values it is.
pub data Kind : Type 0 where
  is_null is_true is_false is_number is_other : Kind

abbrev pub kind_of : Json → Kind
kind_of null = is_null
kind_of (bool true) = is_true
kind_of (bool false) = is_false
kind_of (num n) = is_number
kind_of _ = is_other

-- The value in the column of the input at a path.
abbrev pub input_at : String → String
input_at path = "json_extract(" <> ("input_data" <> (", '$." <> (path <> "')")))

-- A condition in SQL, by the path and the kind of the value. The value has no other part in it.
abbrev pub condition_text : String → Kind → String
condition_text path is_null =
    "(" <> (input_at path <> (" IS NULL OR " <> (input_at path <> " = 'null')")))
condition_text path is_true =
    "(" <> (input_at path <> (" = 1 OR " <> (input_at path <> " = 'true')")))
condition_text path is_false =
    "(" <> (input_at path <> (" = 0 OR " <> (input_at path <> " = 'false')")))
condition_text path is_number = "CAST(" <> (input_at path <> " AS REAL) = ?")
condition_text path is_other = input_at path <> " = ?"

-- What is handed over beside the text.
abbrev pub values_of : Texts → Json → List Json
values_of texts null = []
values_of texts (bool b) = []
values_of texts (num n) = num (nearest_float n) ∷ []
values_of texts v = str (texts.show v) ∷ []

abbrev pub condition_of : Texts → String × Json → Condition
condition_of texts (path, v) = (condition_text path (kind_of v), values_of texts v)

compared :
    (texts : Texts) (path : String) (v : Json)
    → json_compare texts (json_extract "input_data" path) v ≡ condition_of texts (path, v)
unfolding json_compare json_extract
compared texts path null = refl
compared texts path (bool true) = refl
compared texts path (bool false) = refl
compared texts path (num n) = refl
compared texts path (str s) = refl
compared texts path (arr items) = refl
compared texts path (obj fields) = refl

-- The conditions that are built are these, in the order of the paths.
pub built-conditions :
    (texts : Texts) (filters : List (String × Json)) (conditions : List Condition)
    → build_conditions texts filters ≡ ok conditions
    → conditions ≡ map (condition_of texts) filters
unfolding build_conditions
built-conditions texts [] conditions h = sym (ok-injective h)
built-conditions texts ((path, v) ∷ filters) conditions h =
    go (built-conditions texts filters) (validate_json_path texts path)
      (build_conditions texts filters) refl h
  where
    go :
        ((below : List Condition)
          → ◌≡◌ {0} (build_conditions texts filters) (ok below)
          → ◌≡◌ {0} below (map (condition_of texts) filters))
        → (valid : Result {0} (Unit {0})) (rest : Result {0} (List Condition))
        → ◌≡◌ {0} (build_conditions texts filters) rest
        → ◌≡◌ {0}
            (with_condition valid (json_compare texts (json_extract "input_data" path) v) rest)
            (ok conditions)
        → ◌≡◌ {0} conditions (map (condition_of texts) ((path, v) ∷ filters))
    go again (err e) rest b k = cc
    go again (ok _) (err e) b k = cc
    go again (ok _) (ok below) b k =
        sym (ok-injective k) ∙ rw (compared texts path v, again below b) refl
