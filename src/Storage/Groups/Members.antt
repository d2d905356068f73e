-- ===== src/Storage/Groups/Members.antt =====
-- The groups as sets of instances (internal/storage/sqlite.go, the group manager).
use romancy.Base.{
  String, ◌≡◌, refl, ap, ◌∙◌, Bool, true, false, List, [], ◌∷◌, ◌++◌, ◌≟◌, ◌&&◌, ◌||◌, not, any,
  reject, arith, same, subst, if◌then◌else◌,
}
use romancy.Errors.{Result, ok, err}
use romancy.Storage.Models.{Db, GroupMembership}
use romancy.Storage.World.{World, M, exec_}
use romancy.Storage.World.Keeps.{statement_cases}
use romancy.Storage.Groups.{is_member, join_group, leave_group, leave_all_groups}

pub data GroupCommand : Type 0 where
  join leave : (instance_id group : String) → GroupCommand
  leave_all : (instance_id : String) → GroupCommand

-- A set of pairs of an instance and a group.
abbrev pub Groups : Type 0
Groups = String → String → Bool

-- What a command does to the set.
unfoldable pub apply_command : GroupCommand → Groups → Groups
apply_command (join i g) s i' g' = ((i ≟ i') && (g ≟ g')) || s i' g'
apply_command (leave i g) s i' g' = not ((i ≟ i') && (g ≟ g')) && s i' g'
apply_command (leave_all i) s i' g' = not (i ≟ i') && s i' g'

unfoldable pub perform_command : GroupCommand → M (Unit {0})
perform_command (join i g) = join_group i g
perform_command (leave i g) = leave_group i g
perform_command (leave_all i) = leave_all_groups i

-- The set that the table stands for.
unfoldable pub groups_of : Db → Groups
groups_of d i g = any (is_member i g) d.memberships

any-append_one :
    {A : Type 0} (p : A → Bool) (xs : List A) (x : A) → any p (xs ++ x ∷ []) ≡ (p x || any p xs)
any-append_one p [] x = ground arith
any-append_one p (y ∷ xs) x = ground (arith, any-append_one p xs x)

-- What a DELETE leaves, where the test for deletion decides the one for the search.
any-reject :
    {A : Type 0} (p q : A → Bool) (b : Bool) (xs : List A)
    → ((x : A) → p x ≡ true → q x ≡ b)
    → any p (reject q xs) ≡ (not b && any p xs)
any-reject p q b [] h = ground arith
any-reject p q b (x ∷ xs) h = ground (arith, any-reject p q b xs h, h x)

member_known :
    (i g i' g' : String) (rows : List GroupMembership)
    → any (is_member i g) rows ≡ true
    → any (is_member i' g') rows ≡ (((i ≟ i') && (g ≟ g')) || any (is_member i' g') rows)
member_known i g i' g' rows h = elim (same i i') [
  | no ni ↦ ground arith
  | yes ei ↦ elim (same g g') [
    | no ng ↦ ground arith
    | yes eg ↦
        subst
          (λ x. any (is_member x g') rows ≡ (((i ≟ x) && (g ≟ g')) || any (is_member x g') rows)) ei
          (subst
            (λ y. any (is_member i y) rows ≡ (((i ≟ i) && (g ≟ y)) || any (is_member i y) rows)) eg
            (ground arith))
  ]
]

turned : (a b c : String) → (a ≟ b ≡ true) → (a ≟ c) ≡ (c ≟ b)
turned a b c e = ground arith

-- What a command answers: where it succeeds the set has changed as it should, where it fails the
-- set is as it was.
abbrev Applied : GroupCommand → World → Result (Unit {0}) × World → Type 0
Applied c w (ok x, v) = (i g : String) → groups_of v.db i g ≡ apply_command c (groups_of w.db) i g
Applied c w (err e, v) = (i g : String) → groups_of v.db i g ≡ groups_of w.db i g

perform_command-Applied : (c : GroupCommand) (w : World) → Applied c w (perform_command c w)
unfolding perform_command apply_command groups_of join_group leave_group leave_all_groups exec_
perform_command-Applied (join i' g') w =
    statement_cases (Applied (join i' g') w) _ w (λ rest i g. refl)
      (λ rest i g. added i g (any (is_member i' g') w.db.memberships) refl)
  where
    added :
        (i g : String) (b : Bool)
        → any (is_member i' g') w.db.memberships ≡ b
        → any
            (is_member i g)
            (if b then w.db else record w.db {
              memberships = w.db.memberships ++ record { instance_id = i'; group_name = g' } ∷ [];
            }).memberships
          ≡ (((i' ≟ i) && (g' ≟ g)) || any (is_member i g) w.db.memberships)
    added i g true e = member_known i' g' i g w.db.memberships e
    added i g false e = any-append_one (is_member i g) w.db.memberships _
perform_command-Applied (leave i' g') w =
    statement_cases (Applied (leave i' g') w) _ w (λ rest i g. refl)
      (λ rest i g.
        any-reject (is_member i g) (is_member i' g') ((i' ≟ i) && (g' ≟ g)) w.db.memberships λ m e.
          rw (turned m.instance_id i i' (ground arith), turned m.group_name g g' (ground arith))
            refl)
perform_command-Applied (leave_all i') w =
    statement_cases (Applied (leave_all i') w) _ w (λ rest i g. refl)
      (λ rest i g.
        any-reject (is_member i g) (λ m. m.instance_id ≟ i') (i' ≟ i) w.db.memberships
          λ m e. turned m.instance_id i i' (ground arith))

-- The commands that succeed, and the world at the end.
unfoldable pub perform_commands : List GroupCommand → World → List GroupCommand × World
perform_commands [] w = ([], w)
perform_commands (c ∷ cs) w =
    let (r, v) = perform_command c w in
    let (done, u) = perform_commands cs v in elim r [ ok x ↦ (c ∷ done, u) | err e ↦ (done, u) ]

unfoldable pub apply_commands : List GroupCommand → Groups → Groups
unfolding apply_command
apply_commands [] s = s
apply_commands (c ∷ cs) s = apply_commands cs (apply_command c s)

apply_commands-same :
    (cs : List GroupCommand) (s s' : Groups)
    → ((i g : String) → s i g ≡ s' i g)
    → (i g : String) → apply_commands cs s i g ≡ apply_commands cs s' i g
unfolding apply_commands
apply_commands-same [] s s' e i g = e i g
apply_commands-same (c ∷ cs) s s' e i g =
    apply_commands-same cs (apply_command c s) (apply_command c s') (one c) i g
  where
    one : (c : GroupCommand) (i g : String) → apply_command c s i g ≡ apply_command c s' i g
    one (join i' g') i g = ap (λ b. ((i' ≟ i) && (g' ≟ g)) || b) (e i g)
    one (leave i' g') i g = ap (λ b. not ((i' ≟ i) && (g' ≟ g)) && b) (e i g)
    one (leave_all i') i g = ap (λ b. not (i' ≟ i) && b) (e i g)

-- The table of group memberships implements a set of pairs of an instance and a group: however
-- joins, departures and departures from all groups follow one another, and whichever of their
-- statements the driver fails, the table stands at the end for the set that the commands which
-- succeeded make of the set before them.
pub perform_commands-apply_commands :
    (cs : List GroupCommand) (w : World) (i g : String)
    → groups_of (perform_commands cs w).1.db i g
      ≡ apply_commands (perform_commands cs w).0 (groups_of w.db) i g
unfolding perform_commands apply_commands
perform_commands-apply_commands [] w i g = refl
perform_commands-apply_commands (c ∷ cs) w i g =
    go (perform_command c w).0 (perform_command c w).1 (perform_command-Applied c w)
      (perform_commands-apply_commands cs (perform_command c w).1)
  where
    go :
        (r : Result (Unit {0})) (v : World)
        → Applied c w (r, v)
        → ((i g : String)
            → groups_of (perform_commands cs v).1.db i g
              ≡ apply_commands (perform_commands cs v).0 (groups_of v.db) i g)
        → let done : List GroupCommand × World = elim r [
          | ok x ↦ (c ∷ (perform_commands cs v).0, (perform_commands cs v).1)
          | err e ↦ ((perform_commands cs v).0, (perform_commands cs v).1)
        ] in
          groups_of done.1.db i g ≡ apply_commands done.0 (groups_of w.db) i g
    go (ok x) v a ih =
        ih i g ∙ apply_commands-same (perform_commands cs v).0 (groups_of v.db) _ a i g
    go (err e) v a ih =
        ih i g ∙ apply_commands-same (perform_commands cs v).0 (groups_of v.db) _ a i g
