-- ===== src/Migrations/Repeated.antt =====
-- A second start after one that has applied the migrations (internal/migrations/migrations.go).
use romancy.Base.{
  String, ◌≡◌, refl, sym, subst, ◌∙◌, true, false, Option, none, some, List, [], ◌∷◌, Bool-cases,
  inl, inr, select, ◌||◌, All, order_rows,
}
use romancy.Migrations.{
  Schema, Engine, DirEntry, Outcome, apply_content, version_of, apply_files, is_migration, by_name,
  apply_migrations, ensure_schema_migrations_table, get_applied_migrations,
}
use romancy.Migrations.Settled.{
  has, has_no_up, table, is_settled, Settles, Settled, apply_files-Goes,
}

module _ {S : Type 0} (engine : Engine S) where
  -- A file that is settled is passed over.
  content_passed :
      (next : List String → Schema S → Outcome S) (vs : List String) (f : DirEntry) (d : Schema S)
      (content : Option String)
      → has_no_up content ≡ true
      → apply_content engine next vs f.name (version_of engine f) d content ≡ next vs d
  content_passed next vs f d none h = cc
  content_passed next vs f d (some content) h = rw h refl

  settled_without_version :
      (versions : List String) (f : DirEntry)
      → is_settled engine versions f ≡ true
      → has versions (version_of engine f) ≡ false
      → has_no_up f.content ≡ true
  settled_without_version versions f h k = subst (λ b. (b || has_no_up f.content) ≡ true) k h

  apply_files-again :
      (versions : List String) (objects : S) (files : List DirEntry) (vs : List String)
      → All (λ f. is_settled engine versions f ≡ true) files
      → apply_files engine versions files vs (table engine versions objects)
        ≡ ((vs, none), table engine versions objects)
  unfolding apply_files
  apply_files-again versions objects [] vs h = refl
  apply_files-again versions objects (f ∷ files) vs h =
      elim (Bool-cases (has versions (version_of engine f))) [
        | inl e ↦ rw e (apply_files-again versions objects files vs h.1)
        | inr e ↦ rw e (
            content_passed (apply_files engine versions files) vs f (table engine versions objects)
              f.content (settled_without_version versions f h.0 e)
            ∙ apply_files-again versions objects files vs h.1)
      ]

  abbrev sorted_files : List DirEntry → List DirEntry
  sorted_files entries = order_rows (by_name engine) (select (is_migration engine) entries)

  abbrev rows_or_none : Option (List String) → List String
  rows_or_none none = []
  rows_or_none (some rows) = rows

  first_run :
      (entries : List DirEntry) (versions : Option (List String)) (objects : S)
      → apply_migrations engine
          (some entries)
          (record { versions = versions; objects = objects; faults = [] })
        ≡ apply_files engine
            (rows_or_none versions)
            (sorted_files entries)
            []
            (table engine (rows_or_none versions) objects)
  unfolding apply_migrations ensure_schema_migrations_table get_applied_migrations
  first_run entries none objects = refl
  first_run entries (some rows) objects = refl

  same_again :
      (entries : List DirEntry) (out : Outcome S) (before : List String)
      → Settled engine (sorted_files entries) before out.1
      → apply_migrations engine (some entries) out.1 ≡ (([], none), out.1)
  same_again entries out before s =
      subst (λ (t : Schema S). apply_migrations engine (some entries) t ≡ (([], none), t))
        (sym s.whole)
        (first_run entries (some s.versions) s.objects
          ∙ apply_files-again s.versions s.objects (sorted_files entries) [] s.all)

  -- A second start changes nothing: where the migrations ran through and no statement on the table
  -- of versions failed, then running them on the same files again succeeds, with no version applied
  -- and the database as it was.
  pub apply_migrations-again :
      (entries : Option (List DirEntry)) (d : Schema S)
      → d.faults ≡ []
      → (apply_migrations engine entries d).0.1 ≡ none
      → apply_migrations engine entries (apply_migrations engine entries d).1
        ≡ (([], none), (apply_migrations engine entries d).1)
  apply_migrations-again none d f fine = unfold apply_migrations in refl
  apply_migrations-again (some entries) d f fine =
      let rows : List String = rows_or_none d.versions in
      let run : apply_migrations engine (some entries) d
          ≡ apply_files engine rows (sorted_files entries) [] (table engine rows d.objects) =
        subst
          (λ fs.
            apply_migrations engine (some entries) (record d { faults = fs })
            ≡ apply_files engine rows (sorted_files entries) [] (table engine rows d.objects))
          (sym f) (first_run entries d.versions d.objects) in
      same_again entries (apply_migrations engine (some entries) d) rows (
        subst (λ (out : Outcome S). Settles engine (sorted_files entries) rows out) (sym run)
          (apply_files-Goes engine rows (sorted_files entries) [] rows d.objects (λ v h. h)) fine)
