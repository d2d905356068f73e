-- ===== src/Migrations.antt =====
-- internal/migrations/migrations.go: the migrations of the database at the start of the program.
pub mod Text
pub mod Settled
pub mod Repeated
use romancy.Base.{
  String, ◌<>◌, Bool, true, false, Option, none, some, List, [], ◌∷◌, ◌++◌, any, map, select, not,
  ◌≟◌, ◌&&◌, ◌||◌, contains, text_lt, order_rows, if◌then◌else◌,
}
use romancy.Errors.{Error, Result, ok, err, wrap, message, error_text}
use romancy.Migrations.Text.{
  trim_space, parse_migration_file, extract_version_from_filename, actual_sql, split_sql_statements,
  has_suffix,
}

-- A database: the versions of `schema_migrations`, where that table exists, all else that it has,
-- and how the next statements on the table fail, where they do.
pub record Schema (S : Type 0) : Type 0 where
  pub versions : Option (List String)
  pub objects : S
  pub faults : List (Option Error)

-- The database's own work: the effect of a statement of a migration, and the error for a version
-- that is there already; and `strings.ToLower`.
pub record Engine (S : Type 0) : Type 0 where
  pub run : String → S → Result S
  pub unique : Error
  pub missing : Error
  pub lower : String → String

-- An entry of the directory; `none` is a file that cannot be read.
pub record DirEntry : Type 0 where
  pub name : String
  pub is_dir : Bool
  pub content : Option String

-- The versions that were applied, the error, and the database.
abbrev pub Outcome : Type 0 → Type 0
Outcome S = (List String × Option Error) × Schema S

module _ {S : Type 0} (engine : Engine S) where
  abbrev pub mentions : String → Error → Bool
  mentions text e = contains text (engine.lower (error_text e))

  -- The next statement on `schema_migrations`: its failure, or its effect.
  abbrev pub asked :
      {A : Type 0}
      → List (Option Error)
      → Schema S
      → (Schema S → Result A × Schema S)
      → Result A × Schema S
  asked [] d f = f d
  asked (none ∷ rest) d f = f (record d { faults = rest })
  asked (some e ∷ rest) d f = (err e, record d { faults = rest })

  abbrev pub with_table : Option (List String) → Option (List String)
  with_table none = some []
  with_table (some versions) = some versions

  abbrev pub exists_is_fine : Result (Unit {0}) × Schema S → Result (Unit {0}) × Schema S
  exists_is_fine (ok _, d) = (ok tt, d)
  exists_is_fine (err e, d) =
      if mentions "already exists" e || (mentions "duplicate" e || mentions "42p07" e)
      then (ok tt, d)
      else (err e, d)

  unfoldable pub ensure_schema_migrations_table : Schema S → Result (Unit {0}) × Schema S
  ensure_schema_migrations_table d =
      exists_is_fine
        (asked d.faults d (λ t. (ok tt, record t { versions = with_table t.versions })))

  abbrev pub rows_of : Option (List String) → Result (List String)
  rows_of none = err engine.missing
  rows_of (some versions) = ok versions

  -- An error of the query is taken for a table that is not there yet.
  abbrev pub or_no_rows : Result (List String) × Schema S → List String × Schema S
  or_no_rows (ok versions, d) = (versions, d)
  or_no_rows (err e, d) = ([], d)

  unfoldable pub get_applied_migrations : Schema S → List String × Schema S
  get_applied_migrations d = or_no_rows (asked d.faults d (λ t. (rows_of t.versions, t)))

  abbrev pub inserted : String → Schema S → Option (List String) → Result Bool × Schema S
  inserted version d none = (err engine.missing, d)
  inserted version d (some versions) =
      if any (λ v. v ≟ version) versions
      then (err engine.unique, d)
      else (ok true, record d { versions = some (versions ++ version ∷ []) })

  abbrev pub recorded_is_fine : Result Bool × Schema S → Result Bool × Schema S
  recorded_is_fine (ok b, d) = (ok b, d)
  recorded_is_fine (err e, d) =
      if mentions "unique" e || (mentions "duplicate" e || mentions "constraint" e)
      then (ok false, d)
      else (err e, d)

  unfoldable pub record_migration : String → Schema S → Result Bool × Schema S
  record_migration version d =
      recorded_is_fine (asked d.faults d (λ t. inserted version t t.versions))

  -- What follows a statement of a migration; `again` is the rest of the loop.
  abbrev pub ran :
      (Schema S → Option Error × Schema S) → Schema S → Result S → Option Error × Schema S
  ran again d (ok objects) = again (record d { objects = objects })
  ran again d (err e) =
      if mentions "already exists" e || mentions "duplicate" e
      then again d
      else (some (wrap "failed to execute SQL" e), d)

  abbrev pub run_statement :
      (Schema S → Option Error × Schema S) → String → Schema S → Option Error × Schema S
  run_statement again sql d = if sql ≟ "" then again d else ran again d (engine.run sql d.objects)

  unfoldable pub run_statements : List String → Schema S → Option Error × Schema S
  run_statements [] d = (none, d)
  run_statements (s ∷ statements) d = run_statement (run_statements statements) (actual_sql s) d

  unfoldable pub execute_sql_statements : String → Schema S → Option Error × Schema S
  execute_sql_statements sql d = run_statements (split_sql_statements sql) d

  module _ (next : List String → Schema S → Outcome S) (vs : List String) where
    abbrev pub noted : String → Result Bool × Schema S → Outcome S
    noted version (err e, d) = ((vs, some (wrap ("failed to record migration " <> version) e)), d)
    noted version (ok true, d) = next (vs ++ version ∷ []) d
    noted version (ok false, d) = next vs d

    abbrev pub executed : String → Option Error × Schema S → Outcome S
    executed version (some e, d) =
        ((vs, some (wrap ("failed to apply migration " <> version) e)), d)
    executed version (none, d) = noted version (record_migration version d)

    abbrev pub apply_text : String → String → Schema S → Outcome S
    apply_text version up d =
        if up ≟ "" then next vs d else executed version (execute_sql_statements up d)

    abbrev pub apply_content : String → String → Schema S → Option String → Outcome S
    apply_content filename version d none =
        ((vs, some (wrap ("failed to read migration file " <> filename) (message "read"))), d)
    apply_content filename version d (some content) =
        apply_text version (parse_migration_file content).0 d

  abbrev pub version_of : DirEntry → String
  version_of f = extract_version_from_filename f.name

  -- The loop over the files.
  unfoldable pub apply_files : List String → List DirEntry → List String → Schema S → Outcome S
  apply_files applied [] vs d = ((vs, none), d)
  apply_files applied (f ∷ files) vs d =
      if any (λ v. v ≟ version_of f) applied
      then apply_files applied files vs d
      else apply_content (apply_files applied files) vs f.name (version_of f) d f.content

  abbrev pub is_migration : DirEntry → Bool
  is_migration f = not f.is_dir && has_suffix ".sql" f.name

  abbrev pub by_name : DirEntry → DirEntry → Bool
  by_name f g = text_lt f.name g.name

  abbrev pub apply_from : List DirEntry → List String × Schema S → Outcome S
  apply_from entries (applied, d) =
      apply_files applied (order_rows by_name (select is_migration entries)) [] d

  abbrev pub apply_ensured : List DirEntry → Result (Unit {0}) × Schema S → Outcome S
  apply_ensured entries (err e, d) =
      (([], some (wrap "failed to create schema_migrations table" e)), d)
  apply_ensured entries (ok _, d) = apply_from entries (get_applied_migrations d)

  -- `ApplyMigrations`; without a directory for the database's type there is nothing to do.
  unfoldable pub apply_migrations : Option (List DirEntry) → Schema S → Outcome S
  apply_migrations none d = (([], none), d)
  apply_migrations (some entries) d = apply_ensured entries (ensure_schema_migrations_table d)
