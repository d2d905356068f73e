-- ===== src/Migrations/Text.antt =====
-- The text functions of internal/migrations/migrations.go: what is read out of a migration's file
-- and its name.
use Prim.Native.Char.{Char, code}
use romancy.Base.{
  String, ◌<>◌, ℕ, Bool, true, false, Option, none, some, List, [], ◌∷◌, leb, ◌==◌, ◌≟◌, ◌&&◌, ◌||◌,
  not, cut, has_prefix, select, map, if◌then◌else◌,
}

-- `unicode.IsSpace`
abbrev pub is_space : ℕ → Bool
is_space c =
    (leb 9 c && leb c 13)
    || ((c == 32)
        || ((c == 133)
            || ((c == 160)
                || ((c == 5760)
                    || ((leb 8192 c && leb c 8202)
                        || ((leb 8232 c && leb c 8233)
                            || ((c == 8239) || ((c == 8287) || (c == 12288)))))))))

unfoldable pub trim_left : String → String
trim_left String.[] = ""
trim_left (String.◌∷◌ c s) = if is_space (code c) then trim_left s else String.◌∷◌ c s

abbrev keep_right : Char → String → String
keep_right c String.[] = if is_space (code c) then "" else String.◌∷◌ c ""
keep_right c (String.◌∷◌ d s) = String.◌∷◌ c (String.◌∷◌ d s)

unfoldable pub trim_right : String → String
trim_right String.[] = ""
trim_right (String.◌∷◌ c s) = keep_right c (trim_right s)

-- `strings.TrimSpace`
unfoldable pub trim_space : String → String
unfolding trim_left trim_right
trim_space s = trim_right (trim_left s)

abbrev onto_first : Char → List String → List String
onto_first c [] = []
onto_first c (s ∷ parts) = String.◌∷◌ c s ∷ parts

-- `strings.Split` at a separator of one character
unfoldable pub split : ℕ → String → List String
split sep String.[] = "" ∷ []
split sep (String.◌∷◌ c s) =
    let parts = split sep s in if code c == sep then "" ∷ parts else onto_first c parts

unfoldable pub join : String → List String → String
join sep [] = ""
join sep (s ∷ []) = s
join sep (s ∷ t ∷ parts) = s <> (sep <> join sep (t ∷ parts))

abbrev pub after_or_empty : Option (String × String) → String
after_or_empty none = ""
after_or_empty (some (s, t)) = t

abbrev pub before_or_all : String → Option (String × String) → String
before_or_all all none = all
before_or_all all (some (s, t)) = s

-- `ParseMigrationFile`
unfoldable pub parse_migration_file : String → String × String
unfolding cut trim_space
parse_migration_file content =
    let up : String = after_or_empty (cut "-- migrate:up" content) in
    (
      trim_space (before_or_all up (cut "-- migrate:down" up)),
      trim_space (after_or_empty (cut "-- migrate:down" content)),
    )

abbrev is_digit : ℕ → Bool
is_digit c = leb b'0' c && leb c b'9'

-- The digits up to an underscore: `^(\d+)_`, once a digit was seen.
unfoldable pub leading_digits : Bool → String → Option String
leading_digits seen String.[] = none
leading_digits seen (String.◌∷◌ c s) = choose (is_digit (code c)) (leading_digits true s)
  where
    onto : Option String → Option String
    onto none = none
    onto (some t) = some (String.◌∷◌ c t)

    choose : Bool → Option String → Option String
    choose true rest = onto rest
    choose false rest = if seen && (code c == b'_') then some "" else none

-- `strings.TrimSuffix(filename, ".sql")`
unfoldable pub trim_suffix : String → String → String
trim_suffix suffix String.[] = ""
trim_suffix suffix (String.◌∷◌ c s) =
    if String.◌∷◌ c s ≟ suffix then "" else String.◌∷◌ c (trim_suffix suffix s)

unfoldable pub has_suffix : String → String → Bool
has_suffix suffix String.[] = suffix ≟ ""
has_suffix suffix (String.◌∷◌ c s) = (String.◌∷◌ c s ≟ suffix) || has_suffix suffix s

abbrev pub version_or : String → Option String → String
version_or filename none = trim_suffix ".sql" filename
version_or filename (some version) = version

-- `ExtractVersionFromFilename`
unfoldable pub extract_version_from_filename : String → String
unfolding leading_digits trim_suffix
extract_version_from_filename filename = version_or filename (leading_digits false filename)

abbrev pub is_code : String → Bool
is_code line = not (trim_space line ≟ "") && not (has_prefix "--" (trim_space line))

-- A statement without the lines that are blank or a comment.
unfoldable pub actual_sql : String → String
unfolding trim_space split join has_prefix
actual_sql statement = trim_space (join "\n" (select is_code (split 10 (trim_space statement))))

-- `splitSQLStatements`
unfoldable pub split_sql_statements : String → List String
unfolding split trim_space
split_sql_statements sql = select (λ s. not (s ≟ "")) (map trim_space (split b';' sql))
