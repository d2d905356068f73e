-- ===== src/Storage/Listing/Path.antt =====
-- `validJSONPathPattern` of internal/storage/json_path.go.
use Prim.Native.Char.{code}
use romancy.Base.{String, ℕ, Bool, true, false, leb, ◌==◌, ◌&&◌, ◌||◌}

-- [a-zA-Z_]
abbrev pub is_letter : ℕ → Bool
is_letter c = (leb b'a' c && leb c b'z') || ((leb b'A' c && leb c b'Z') || (c == b'_'))

-- [a-zA-Z0-9_]
abbrev pub is_word : ℕ → Bool
is_word c = is_letter c || (leb b'0' c && leb c b'9')

-- The rest of a path; `starts` says that a name begins here, and a dot begins the next.
unfoldable pub matches_from : Bool → String → Bool
matches_from true String.[] = false
matches_from true (String.◌∷◌ c s) = is_letter (code c) && matches_from false s
matches_from false String.[] = true
matches_from false (String.◌∷◌ c s) =
    ((code c == b'.') || is_word (code c)) && matches_from (code c == b'.') s

unfoldable pub matches_path : String → Bool
unfolding matches_from
matches_path path = matches_from true path
