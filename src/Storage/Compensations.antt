-- ===== src/Storage/Compensations.antt =====
-- internal/storage/sqlite.go, the compensation manager.
use romancy.Base.{
  String, ℕ, Bool, List, [], ◌∷◌, ◌++◌, ltb, ◌==◌, ◌≟◌, ◌&&◌, ◌||◌, suc, select, if◌then◌else◌,
}
use romancy.Storage.Models.{Db, CompensationEntry}
use romancy.Storage.World.{M, ◌>>=◌, query, exec_, now_ms}

abbrev pub of_workflow : String → CompensationEntry → Bool
of_workflow instance_id c = c.instance_id ≟ instance_id

abbrev pub add_entry : ℕ → CompensationEntry → Db → Db
add_entry t entry d = record d {
  compensations =
      d.compensations ++ record entry { id = d.next_compensation_id; created_at = t } ∷ [];
  next_compensation_id = suc d.next_compensation_id;
}

-- The time has milliseconds.
unfoldable pub add_compensation : CompensationEntry → M (Unit {0})
add_compensation entry = do t ← now_ms; exec_ (add_entry t entry)

-- `ORDER BY created_at DESC, id DESC`: whether a row stands before another.
abbrev pub is_newer : CompensationEntry → CompensationEntry → Bool
is_newer a b = ltb b.created_at a.created_at || (a.created_at == b.created_at) && ltb b.id a.id

unfoldable pub insert_newest : CompensationEntry → List CompensationEntry → List CompensationEntry
insert_newest c [] = c ∷ []
insert_newest c (e ∷ rows) = if is_newer e c then e ∷ insert_newest c rows else c ∷ e ∷ rows

unfoldable pub newest_first : List CompensationEntry → List CompensationEntry
unfolding insert_newest
newest_first [] = []
newest_first (c ∷ rows) = insert_newest c (newest_first rows)

unfoldable pub get_compensations : String → M (List CompensationEntry)
get_compensations instance_id =
    query (λ d. newest_first (select (of_workflow instance_id) d.compensations))
