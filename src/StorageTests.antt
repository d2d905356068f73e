-- ===== src/StorageTests.antt =====
-- The other storages and the listing of instances at a small database, and the theorems at them.
use Prim.Native.Char.{char}
use romancy.Base.{
  ◌++◌, String, ℕ, ◌*◌, ◌/◌, zero, suc, ◌≡◌, ◌↔◌, refl, ap, true, false, none, some, List, [], ◌∷◌,
  arith, same, map, select, order_rows, All, ◌≢◌, subst, ◌≟◌, contains, text_lt,
}
use romancy.Json.{Json, num}
use romancy.Errors.{ok, message}
use romancy.Storage.Models.{running}
use romancy.Storage.World.{World, ◌>>=◌, ◌>>◌, now_ns, query, statement, exec_, pure}
use romancy.Storage.Postgres
use romancy.Storage.Postgres.{Times, can_acquire, select_for_update, acquire_selected, expiry}
use romancy.Storage.Postgres.Raced.{
  HasLock, Refused, row, acquire_selected-both, try_acquire_lock-Refused_after,
}
use romancy.Storage.Listing.{
  Texts, ListInstancesOptions, Condition, build_filter_query, build_conditions, listed,
  stands_before, is_listed, by_path,
}
use romancy.Storage.Listing.Worded.{condition_of}
use romancy.Storage.Listing.Safe.{JsonPath, build_filter_query-JsonPath}
use romancy.Storage.Listing.Token.{ReadsTimes, has_bar}
use romancy.Storage.Listing.Pages.{list_pages}
use romancy.Storage.Listing.Paged.{list_pages-listed}
use romancy.Migrations.{
  Engine, DirEntry, Schema, apply_migrations, ensure_schema_migrations_table,
  get_applied_migrations, apply_files, execute_sql_statements, run_statements, record_migration,
}
use romancy.Migrations.Text.{
  has_suffix, parse_migration_file, split_sql_statements, actual_sql, extract_version_from_filename,
}
use romancy.Migrations.Repeated.{apply_migrations-again}
use romancy.Tests.{world, instance_row, tables-DistinctKeys}

-- Columns of microseconds.
abbrev micros : Times
micros = record { kept = λ t. t / 1000; read = λ t. t * 1000 }

abbrev still_world : World
still_world = record world { faults = []; clock = 2000000 }

acquire_selected-both_example :
    let seen = select_for_update micros "w1" false still_world in
    let seen_too = select_for_update micros "w1" false seen.1 in
    (seen.0 ≡ ok (some (instance_row "w1" running)))
    × (seen_too.0 ≡ ok (some (instance_row "w1" running)))
    × (let out =
          acquire_selected micros 5000 "w1" "a" 300 (some (instance_row "w1" running)) seen_too.1 in
        let last =
          acquire_selected micros 6000 "w1" "b" 300 (some (instance_row "w1" running)) out.1 in
        (out.0 ≡ ok true)
        × HasLock "a" (micros.kept (expiry 5000 300)) (row "w1" out.1)
        × (last.0 ≡ ok true)
        × HasLock "b" (micros.kept (expiry 6000 300)) (row "w1" last.1))
unfolding can_acquire same
acquire_selected-both_example =
    acquire_selected-both micros "w1" "a" "b" 5000 6000 300 300 (instance_row "w1" running)
      still_world refl refl refl refl

-- "a" has acquired the lock of "w1", and a second has gone by.
abbrev acquired_world : World
unfolding same Postgres.try_acquire_lock can_acquire
acquired_world = record (Postgres.try_acquire_lock micros false "w1" "a" 300 still_world).1 {
  clock = 1002000000;
}

a-ne-b : ◌≢◌ {A = String} "a" "b"
unfolding same
a-ne-b e = subst (λ t. elim t [ true ↦ ⊥ | false ↦ Unit {0} ]) (ap (λ s. s ≟ "b") e) tt

a-ne-empty : ◌≢◌ {A = String} "a" ""
unfolding same
a-ne-empty e = subst (λ t. elim t [ true ↦ ⊥ | false ↦ Unit {0} ]) (ap (λ s. s ≟ "") e) tt

try_acquire_lock-Refused_after_example :
    Refused (Postgres.try_acquire_lock micros false "w1" "b" 300 acquired_world).0
unfolding same can_acquire acquired_world Postgres.try_acquire_lock select_for_update
    acquire_selected Postgres.write_lock ◌>>=◌ ◌>>◌ now_ns query statement exec_ pure
try_acquire_lock-Refused_after_example =
    try_acquire_lock-Refused_after micros "w1" "a" "b" 300 300 false false still_world
      acquired_world refl refl a-ne-b a-ne-empty (omega arith)

-- A time is so many letters.
letters : ℕ → String
letters zero = ""
letters (suc n) = String.◌∷◌ (char 120 tt) (letters n)

count_letters : String → ℕ
count_letters String.[] = 0
count_letters (String.◌∷◌ c s) = suc (count_letters s)

count-letters : (n : ℕ) → count_letters (letters n) ≡ n
unfolding count_letters letters
count-letters zero = refl
count-letters (suc n) = ap suc (count-letters n)

letters-has_bar : (n : ℕ) → has_bar (letters n) ≡ false
unfolding letters
letters-has_bar zero = refl
letters-has_bar (suc n) = letters-has_bar n

abbrev plain : Texts
plain = record {
  like = λ text pattern. true;
  satisfies = λ condition args input. true;
  show = λ v. "";
  quote = λ s. s;
  format = letters;
  parse = λ s. some (count_letters s);
}

plain-ReadsTimes : ReadsTimes plain
plain-ReadsTimes = record {
  parse-format = λ t. ap some (count-letters t);
  format-has_bar = letters-has_bar;
}

build_filter_query-JsonPath_example :
    (((conditions : List Condition) × (build_filter_query plain (("order.id", num 1) ∷ [])
          ≡ ok conditions))
      ↔ All {A = String × Json} (λ f. JsonPath f.0) (("order.id", num 1) ∷ []))
    × ((conditions : List Condition)
        → build_filter_query plain (("order.id", num 1) ∷ []) ≡ ok conditions
        → conditions ≡ map (condition_of plain) (order_rows by_path (("order.id", num 1) ∷ [])))
build_filter_query-JsonPath_example = build_filter_query-JsonPath plain (("order.id", num 1) ∷ [])

-- A row to a page.
abbrev one_each : ListInstancesOptions
one_each = record {
  limit = 1;
  page_token = "";
  status_filter = "running";
  workflow_name_filter = "";
  instance_id_filter = "";
  started_after = none;
  started_before = none;
  input_filters = [];
  status = "";
  workflow_name = "order";
}

list_pages-listed_example :
    list_pages plain 3 one_each "" still_world
    ≡ some (
        ok (
          map listed (
            order_rows stands_before
              (select (is_listed plain one_each []) still_world.db.instances))))
unfolding build_filter_query build_conditions order_rows
list_pages-listed_example =
    list_pages-listed plain one_each [] still_world refl tables-DistinctKeys refl plain-ReadsTimes

-- An engine that keeps the statements, and a directory with one migration.
abbrev log : Engine (List String)
log = record {
  run = λ sql done. ok (done ++ sql ∷ []);
  unique = message "UNIQUE constraint failed";
  missing = message "no such table";
  lower = λ s. s;
}

abbrev directory : List DirEntry
directory =
    record {
      name = "1_schema.sql";
      is_dir = false;
      content = some "-- migrate:up\nCREATE a;\n-- comment\nCREATE b;\n-- migrate:down\nDROP a";
    }
    ∷ record { name = "notes.txt"; is_dir = false; content = none }
    ∷ []

abbrev empty_schema : Schema (List String)
empty_schema = record { versions = none; objects = []; faults = [] }

apply_migrations-again_example :
    apply_migrations log (some directory) (apply_migrations log (some directory) empty_schema).1
    ≡ (([], none), (apply_migrations log (some directory) empty_schema).1)
unfolding apply_migrations ensure_schema_migrations_table get_applied_migrations apply_files same
    order_rows has_suffix parse_migration_file execute_sql_statements run_statements
    split_sql_statements actual_sql extract_version_from_filename record_migration contains text_lt
apply_migrations-again_example = apply_migrations-again log (some directory) empty_schema refl refl
