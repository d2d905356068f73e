-- ===== src/Migrations/Settled.antt =====
-- What a run of the migrations that comes through has recorded (internal/migrations/migrations.go).
use romancy.Base.{
  String, ◌≡◌, refl, sym, subst, Bool, true, false, Option, none, some, List, [], ◌∷◌, ◌++◌, arith,
  any, ◌≟◌, ◌||◌, All, if◌then◌else◌,
}
use romancy.Errors.{Error, Result, ok, err}
use romancy.Migrations.Text.{split_sql_statements, actual_sql, parse_migration_file}
use romancy.Migrations.{
  Schema, Engine, DirEntry, Outcome, mentions, ran, run_statement, run_statements,
  execute_sql_statements, record_migration, recorded_is_fine, noted, executed, apply_text,
  apply_content, version_of, apply_files,
}

abbrev pub has : List String → String → Bool
has versions v = any (λ x. x ≟ v) versions

abbrev pub Within : List String → List String → Type 0
Within versions more = (v : String) → has versions v ≡ true → has more v ≡ true

has-append :
    (versions : List String) (v x : String)
    → has versions v ≡ true
    → has (versions ++ x ∷ []) v ≡ true
has-append [] v x h = cc
has-append (y ∷ versions) v x h = ground (arith, has-append versions v x)

has-last : (versions : List String) (x : String) → has (versions ++ x ∷ []) x ≡ true
has-last [] x = ground arith
has-last (y ∷ versions) x = ground (arith, has-last versions x)

abbrev pub has_no_up : Option String → Bool
has_no_up none = false
has_no_up (some content) = (parse_migration_file content).0 ≟ ""

or_true : (b : Bool) → (b || true) ≡ true
or_true true = refl
or_true false = refl

module _ {S : Type 0} (engine : Engine S) where
  -- The database with its table, and with no failures to come.
  abbrev pub table : List String → S → Schema S
  table versions objects = record { versions = some versions; objects = objects; faults = [] }

  -- The file's version is in the table, or the file has nothing to apply.
  abbrev pub is_settled : List String → DirEntry → Bool
  is_settled versions f = has versions (version_of engine f) || has_no_up f.content

  pub record Settled (files : List DirEntry) (before : List String) (d : Schema S) : Type 0 where
    pub versions : List String
    pub objects : S
    pub whole : d ≡ table versions objects
    pub all : All (λ f. is_settled versions f ≡ true) files
    pub more : Within before versions

  abbrev pub Settles : List DirEntry → List String → Outcome S → Type 0
  Settles files before out = out.0.1 ≡ none → Settled files before out.1

  with_file :
      (f : DirEntry) (files : List DirEntry) (before : List String) (d : Schema S)
      → (s : Settled files before d) → is_settled s.versions f ≡ true
      → Settled (f ∷ files) before d
  with_file f files before d s h = record {
    versions = s.versions;
    objects = s.objects;
    whole = s.whole;
    all = (h, s.all);
    more = s.more;
  }

  settled_by_version :
      (f : DirEntry) (before versions : List String)
      → Within before versions
      → has before (version_of engine f) ≡ true
      → is_settled versions f ≡ true
  settled_by_version f before versions more h = rw (more (version_of engine f) h) refl

  abbrev pub Left : List String → Option Error × Schema S → Type 0
  Left versions out = (left : S) × (out.1 ≡ table versions left)

  ran-Left :
      (again : Schema S → Option Error × Schema S) (versions : List String) (objects : S)
      (r : Result S)
      → ((o : S) → Left versions (again (table versions o)))
      → Left versions (ran engine again (table versions objects) r)
  ran-Left again versions objects (ok o) h = h o
  ran-Left again versions objects (err e) h =
      go (mentions engine "already exists" e || mentions engine "duplicate" e)
    where
      go :
          (known : Bool)
          → Left versions (
              if known
              then again (table versions objects)
              else (some (Error.wrap "failed to execute SQL" e), table versions objects))
      go true = h objects
      go false = (objects, refl)

  run_statement-Left :
      (again : Schema S → Option Error × Schema S) (sql : String) (versions : List String)
      (objects : S)
      → ((o : S) → Left versions (again (table versions o)))
      → Left versions (run_statement engine again sql (table versions objects))
  run_statement-Left again sql versions objects h = go (sql ≟ "")
    where
      go :
          (empty : Bool)
          → Left versions (
              if empty
              then again (table versions objects)
              else ran engine again (table versions objects) (engine.run sql objects))
      go true = h objects
      go false = ran-Left again versions objects (engine.run sql objects) h

  run_statements-Left :
      (statements : List String) (versions : List String) (objects : S)
      → Left versions (run_statements engine statements (table versions objects))
  unfolding run_statements
  run_statements-Left [] versions objects = (objects, refl)
  run_statements-Left (s ∷ statements) versions objects =
      run_statement-Left (run_statements engine statements) (actual_sql s) versions objects
        (run_statements-Left statements versions)

  -- The rest of the loop settles its files from any database with the versions.
  abbrev pub Goes : (List String → Schema S → Outcome S) → List DirEntry → List String → Type 0
  Goes next files applied =
      (vs rows : List String) (objects : S)
      → Within applied rows
      → Settles files rows (next vs (table rows objects))

  module _ (next : List String → Schema S → Outcome S) (f : DirEntry) (files : List DirEntry)
      (applied vs rows : List String) (below : Within applied rows)
      (go_on : Goes next files applied) where
    kept-Settles :
        (objects : S)
        → has rows (version_of engine f) ≡ true
        → Settles (f ∷ files) rows (next vs (table rows objects))
    kept-Settles objects h fine =
        let s = go_on vs rows objects below fine in
        with_file f files rows (next vs (table rows objects)).1 s
          (settled_by_version f rows s.versions s.more h)

    added-Settles :
        (objects : S)
        → Settles (f ∷ files) rows (
            next
              (vs ++ version_of engine f ∷ [])
              (table (rows ++ version_of engine f ∷ []) objects))
    added-Settles objects fine =
        let v : String = version_of engine f in
        let s =
          go_on (vs ++ v ∷ []) (rows ++ v ∷ []) objects (λ x h. has-append rows x v (below x h))
            fine in
        record {
          versions = s.versions;
          objects = s.objects;
          whole = s.whole;
          all = (settled_by_version f (rows ++ v ∷ []) s.versions s.more (has-last rows v), s.all);
          more = λ x h. s.more x (has-append rows x v h);
        }

    noted-Settles :
        (objects : S)
        → Settles (f ∷ files) rows (
            noted engine next vs
              (version_of engine f)
              (record_migration engine (version_of engine f) (table rows objects)))
    unfolding record_migration
    noted-Settles objects =
        go (has rows (version_of engine f)) refl
          (mentions engine "unique" engine.unique
            || (mentions engine "duplicate" engine.unique
                || mentions engine "constraint" engine.unique))
          refl
      where
        go :
            (old : Bool)
            → ◌≡◌ {0} (has rows (version_of engine f)) old
            → (known : Bool)
            → ◌≡◌ {0}
                (mentions engine "unique" engine.unique
                  || (mentions engine "duplicate" engine.unique
                      || mentions engine "constraint" engine.unique))
                known
            → Settles (f ∷ files) rows (
                noted engine next vs (version_of engine f) (
                  recorded_is_fine engine (
                    if old
                    then (err engine.unique, table rows objects)
                    else (ok true, table (rows ++ version_of engine f ∷ []) objects))))
        go true h true k = rw k (kept-Settles objects h)
        go true h false k = rw k (λ fine. cc)
        go false h known k = added-Settles objects

    executed-Settles :
        (out : Option Error × Schema S)
        → Left rows out
        → Settles (f ∷ files) rows (executed engine next vs (version_of engine f) out)
    executed-Settles (some e, d) left fine = cc
    executed-Settles (none, d) (left, q) fine =
        subst
          (λ (t : Schema S). Settles (f ∷ files) rows (
            noted engine next vs (version_of engine f)
              (record_migration engine (version_of engine f) t)))
          (sym q) (noted-Settles left) fine

    apply_text-Settles :
        (objects : S) (content : String)
        → f.content ≡ some content
        → Settles (f ∷ files) rows (
            apply_text engine next vs
              (version_of engine f)
              (parse_migration_file content).0
              (table rows objects))
    unfolding execute_sql_statements
    apply_text-Settles objects content e = go ((parse_migration_file content).0 ≟ "") refl
      where
        nothing_up :
            (versions : List String)
            → ◌≡◌ {0} ((parse_migration_file content).0 ≟ "") true
            → ◌≡◌ {0} (is_settled versions f) true
        nothing_up versions h = rw e (rw h (or_true (has versions (version_of engine f))))

        go :
            (empty : Bool)
            → ◌≡◌ {0} ((parse_migration_file content).0 ≟ "") empty
            → Settles (f ∷ files) rows (
                if empty
                then next vs (table rows objects)
                else executed engine next vs (version_of engine f) (
                    execute_sql_statements engine
                      (parse_migration_file content).0
                      (table rows objects)))
        go true h fine =
            let s = go_on vs rows objects below fine in
            with_file f files rows (next vs (table rows objects)).1 s (nothing_up s.versions h)
        go false h fine =
            executed-Settles
              (execute_sql_statements engine (parse_migration_file content).0 (table rows objects))
              (run_statements-Left (split_sql_statements (parse_migration_file content).0) rows
                objects)
              fine

    apply_content-Settles :
        (objects : S) (content : Option String)
        → f.content ≡ content
        → Settles
            (f ∷ files)
            rows
            (apply_content engine next vs f.name (version_of engine f) (table rows objects) content)
    apply_content-Settles objects none e fine = cc
    apply_content-Settles objects (some content) e fine = apply_text-Settles objects content e fine

  pub apply_files-Goes :
      (applied : List String) (files : List DirEntry)
      → Goes (apply_files engine applied files) files applied
  unfolding apply_files
  apply_files-Goes applied [] vs rows objects below fine = record {
    versions = rows;
    objects = objects;
    whole = refl;
    all = tt;
    more = λ v h. h;
  }
  apply_files-Goes applied (f ∷ files) vs rows objects below fine =
      go (apply_files-Goes applied files) (has applied (version_of engine f)) refl fine
    where
      go :
          Goes (apply_files engine applied files) files applied
          → (old : Bool) → ◌≡◌ {0} (has applied (version_of engine f)) old
          → Settles (f ∷ files) rows (
              if old
              then apply_files engine applied files vs (table rows objects)
              else apply_content engine
                  (apply_files engine applied files)
                  vs
                  f.name
                  (version_of engine f)
                  (table rows objects)
                  f.content)
      go rest true h =
          kept-Settles (apply_files engine applied files) f files applied vs rows below rest objects
            (below (version_of engine f) h)
      go rest false h =
          apply_content-Settles (apply_files engine applied files) f files applied vs rows below
            rest objects f.content refl
