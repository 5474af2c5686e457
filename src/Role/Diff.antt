-- ===== src/Role/Diff.antt =====
-- internal/role/diff.go. The channel is the list of the queries sent.
pub mod Queries
pub mod Plan
use ldap2pg.Common.{ℕ, String, ◌≡◌, List, [], ◌∷◌, ◌++◌, Option, none, some, ◌>>=◌, collect}
use ldap2pg.Common.{◌==◌, string_eq, if◌then◌else◌}
use ldap2pg.Common.Dict.{Dict, lookup, get_or}
use ldap2pg.Common.Sets.{SetOps}
use ldap2pg.Postgres.{SyncQuery, DbMap}
use ldap2pg.Role.{Role, alter}
use ldap2pg.Role.RoleOptions.{Columns, zero_options}
use ldap2pg.Role.Create.{create, drop}
use ldap2pg.Role.Map.{RoleMap, flatten}

-- `Role{}`
abbrev pub zero_role : Role
zero_role = record {
  name = "";
  comment = "";
  parents = [];
  options = zero_options;
  config = none;
  before_create = "";
  after_create = "";
}

module _ (S : SetOps String) (columns : Columns) (all wanted : RoleMap)
    (fallback_owner : String) where
  -- The body of the first loop.
  unfoldable pub want_role : String → List SyncQuery
  want_role name =
      let role = get_or wanted name zero_role in
      elim (lookup name all) [
        | none ↦ create columns role
        | some other ↦ alter S columns other role
      ]

  -- The second loop. Dropping a role updates the owners in `postgres.Databases`.
  unfoldable pub drop_spurious : RoleMap → DbMap → List SyncQuery × DbMap
  drop_spurious [] databases = ([], databases)
  drop_spurious ((name, _) ∷ rest) databases =
      let skip = drop_spurious rest databases in
      elim (lookup name wanted) [
        | some _ ↦ skip
        | none ↦ if name == "public" then skip else elim (lookup name all) [
          | none ↦ skip
          | some role ↦
              let (queries, databases') = drop role fallback_owner databases in
              let (more, databases'') = drop_spurious rest databases' in
              (queries ++ more, databases'')
        ]
      ]

  unfoldable pub diff : ℕ → RoleMap → DbMap → Option (List SyncQuery × DbMap)
  unfolding want_role drop_spurious
  diff fuel managed databases = flatten S fuel wanted >>= λ names.
      let (queries, databases') = drop_spurious managed databases in
      some (collect want_role names ++ queries, databases')
