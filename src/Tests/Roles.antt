-- ===== src/Tests/Roles.antt =====
-- Two wanted roles, one of them new, and an instance with one role too many.
use ldap2pg.Common.{
  ℕ, String, ◌≡◌, ◌↔◌, refl, true, false, List, [], ◌∷◌, Option, none, some, arith,
}
use ldap2pg.Common.{string_eq, contains, keep, All, map, if◌then◌else◌}
use ldap2pg.Common.Dict.{keys}
use ldap2pg.Common.Int.{negsuc, int_eq}
use ldap2pg.Common.Sets.{list_set, list_set-IsLawful}
use ldap2pg.Common.Walk.Listed.{Follows}
use ldap2pg.Postgres.{nil, cons, identifier, SyncQuery, DbMap}
use ldap2pg.Role.{Role, alter}
use ldap2pg.Role.RoleOptions.{zero_options, Columns, visible_fields, diff}
use ldap2pg.Role.RoleOptions.Changes.{Agree, diff-eq-nil_iff}
use ldap2pg.Role.Alter.InSync.{InSync, alter-eq-nil_iff}
use ldap2pg.Role.Create.{create, drop}
use ldap2pg.Role.Map.{RoleMap, LoopError, check, flatten}
use ldap2pg.Role.Map.Acyclic.{IsRoleMap, check_total}
use ldap2pg.Role.Map.Acyclic.Height.{Ranks, children, check_iff}
use ldap2pg.Role.Map.Order.{InMap, flatten_total}
use ldap2pg.Role.Diff
use ldap2pg.Role.Diff.Plan.{missing, spurious, diff_plan}
use ldap2pg.Role.Diff.Queries.{created, dropped}
use ldap2pg.Common.{◌≢◌, ◌&&◌, ◌||◌, ◌++◌, ◌==◌}
use ldap2pg.Role.{is_member, query}
use ldap2pg.Role.Create.{merge}
use ldap2pg.Role.Create.Merged.{setting, merge_lem}
use ldap2pg.Role.Create.Dropped.{is_reassignment, owners, handovers, drop_disowns}
use ldap2pg.Role.RoleOptions.{is_column_enabled, process_columns}
use ldap2pg.Role.RoleOptions.Enabled.{is_usable, process_columns_lem}

abbrev role : String → List String → Role
role name parents = record {
  name = name;
  comment = "Managed by ldap2pg";
  parents = members parents;
  options = record zero_options { inherit = true; conn_limit = negsuc 0 };
  config = none;
  before_create = "";
  after_create = "";
}
  where
    members : List String → List ldap2pg.Role.Membership
    members [] = []
    members (p ∷ ps) = record { grantor = ""; name = p } ∷ members ps

abbrev alice : Role
alice = role "alice" ("staff" ∷ [])

abbrev staff : Role
staff = role "staff" []

abbrev wanted : RoleMap
wanted = ("alice", alice) ∷ ("staff", staff) ∷ []

abbrev all : RoleMap
all = ("old", role "old" []) ∷ ("bystander", role "bystander" []) ∷ []

abbrev managed : RoleMap
managed = ("public", role "" []) ∷ ("old", role "old" []) ∷ ("gone", role "" []) ∷ []

abbrev columns : Columns
columns = record {
  availability = ("rolinherit", true) ∷ ("rolcanlogin", true) ∷ ("rolsuper", false) ∷ [];
  order = "rolinherit" ∷ "rolcanlogin" ∷ [];
}

abbrev databases : DbMap
databases = ("app", record { name = "app"; owner = "old"; schemas = [] }) ∷ []

wanted-IsRoleMap : IsRoleMap wanted
unfolding string_eq
wanted-IsRoleMap = record { nodup = (refl, (refl, tt)); keyed = λ k r h. ground arith }

all-IsRoleMap : IsRoleMap all
unfolding string_eq
all-IsRoleMap = record { nodup = (refl, (refl, tt)); keyed = λ k r h. ground arith }

wanted-accepted : check 3 wanted ≡ some none
unfolding check string_eq
wanted-accepted = refl

diff_run :
    let result : Option (List SyncQuery × DbMap) =
      Diff.diff list_set columns all wanted "postgres" 3 managed databases in
    (elim result [ none ↦ [] | some (queries, _) ↦ created queries ] ≡ "staff" ∷ "alice" ∷ [])
    × (elim result [ none ↦ [] | some (queries, _) ↦ dropped queries ] ≡ "old" ∷ [])
unfolding Diff.diff flatten create drop alter diff string_eq
diff_run = (refl, refl)

diff_plan_example :
    (names : List String) × (queries : List SyncQuery) × (databases' : DbMap) × (Diff.diff list_set
        columns all wanted "postgres" 3 managed databases
      ≡ some (queries, databases'))
    × Follows (children wanted) [] names
    × All (λ n. contains names n ≡ true) (keys wanted)
    × All (InMap wanted) names
    × (created queries ≡ keep (missing all) names)
    × (dropped queries ≡ keep (spurious all wanted) (keys managed))
diff_plan_example =
    diff_plan list_set columns all wanted "postgres" all-IsRoleMap wanted-IsRoleMap
      list_set-IsLawful 3 managed databases wanted-accepted

alter-eq-nil_iff_example : (alter list_set columns staff alice ≡ []) ↔ InSync columns staff alice
alter-eq-nil_iff_example = alter-eq-nil_iff list_set list_set-IsLawful columns staff alice

diff-eq-nil_iff_example :
    (diff columns staff.options alice.options ≡ "")
    ↔ Agree columns staff.options alice.options visible_fields
diff-eq-nil_iff_example = diff-eq-nil_iff columns staff.options alice.options

check_total_example : (v : Option LoopError) × (check 3 wanted ≡ some v)
check_total_example = check_total wanted wanted-IsRoleMap 3 (omega arith)

check_iff_example : (check 3 wanted ≡ some none) ↔ ((rank : String → ℕ) × Ranks wanted rank)
check_iff_example = check_iff wanted wanted-IsRoleMap 3 (omega arith)

flatten_total_example :
    (names : List String) × (flatten list_set 3 wanted ≡ some names)
    × Follows (children wanted) [] names
    × All (λ k. contains names k ≡ true) (keys wanted)
    × All (InMap wanted) names
flatten_total_example =
    flatten_total list_set wanted wanted-IsRoleMap list_set-IsLawful 3 wanted-accepted

abbrev all_old : Role
all_old = role "old" []

differ : (s t : String) → (s == t) ≡ false → s ≢ t
differ s t h e = ground arith

fallback_differs : "postgres" ≢ all_old.name
unfolding string_eq
fallback_differs = differ "postgres" "old" refl

drop_disowns_example :
    (let (queries, dbs) = drop all_old "postgres" databases in
      All (λ (_, database). database.owner ≢ all_old.name) dbs
      × (keys dbs ≡ keys databases)
      × (owners dbs
          ≡ map (λ owner. if owner == all_old.name then "postgres" else owner) (owners databases))
      × (keep is_reassignment queries ≡ handovers all_old.name dbs)
      × ((before : List SyncQuery) × (queries
            ≡ before
              ++ query "Drop role." "DROP ROLE %s;" (cons (identifier all_old.name) nil) ∷ [])))
drop_disowns_example = drop_disowns all_old "postgres" fallback_differs databases

abbrev tuned : Role
tuned = record (role "alice" ("dba" ∷ [])) { config = some (("work_mem", "1GB") ∷ []) }

merge_lem_example :
    ((merge alice tuned).name ≡ alice.name)
    × ((merge alice tuned).options ≡ alice.options)
    × ((merge alice tuned).comment ≡ alice.comment)
    × ((merge alice tuned).before_create ≡ alice.before_create)
    × ((merge alice tuned).after_create ≡ alice.after_create)
    × ((p : String)
        → is_member (merge alice tuned).parents p
          ≡ (is_member alice.parents p || is_member tuned.parents p))
    × ((k : String)
        → setting (merge alice tuned).config k
          ≡ elim (setting tuned.config k) [ none ↦ setting alice.config k | some v ↦ some v ])
merge_lem_example = merge_lem alice tuned (refl, tt)

process_columns_lem_example :
    ((n : String)
      → is_column_enabled
          (process_columns
            (record { availability = []; order = [] })
            ("rolsuper" ∷ "rolinherit" ∷ [])
            false)
          n
        ≡ (contains ("rolsuper" ∷ "rolinherit" ∷ []) n && is_usable false n))
    × ((process_columns
          (record { availability = []; order = [] })
          ("rolsuper" ∷ "rolinherit" ∷ [])
          false).order
        ≡ [] ++ keep (is_usable false) ("rolsuper" ∷ "rolinherit" ∷ []))
process_columns_lem_example =
    process_columns_lem (record { availability = []; order = [] }) ("rolsuper" ∷ "rolinherit" ∷ [])
      false
