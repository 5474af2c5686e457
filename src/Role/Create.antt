-- ===== src/Role/Create.antt =====
-- internal/role/role.go: `Create`, `Drop` and `Merge`.
pub mod Merged
pub mod Dropped
use ldap2pg.Common.{String, ◌<>◌, List, [], ◌∷◌, ◌++◌}
use ldap2pg.Common.{Option, none, some, ◌==◌, string_eq, if◌then◌else◌}
use ldap2pg.Common.Dict.{insert}
use ldap2pg.Postgres.{nil, cons, identifier, text, items, SyncQuery, Database, DbMap}
use ldap2pg.Role.{Role, Membership, Config, is_member, query, pair, identifiers, set_config}
use ldap2pg.Role.RoleOptions.{Columns, to_string}

-- A hook is sent as it is, unless it is empty.
abbrev pub hook : String → String → List SyncQuery
hook description sql = if sql == "" then [] else query description sql nil ∷ []

abbrev pub create_role : Columns → Role → List Membership → SyncQuery
create_role columns r [] =
    query "Create role." ("CREATE ROLE %s WITH " <> to_string columns r.options <> ";")
      (cons (identifier r.name) nil)
create_role columns r (m ∷ ms) =
    query "Create role."
      ("\n\t\t\tCREATE ROLE %s\n\t\t\tWITH "
        <> to_string columns r.options
        <> "\n\t\t\tIN ROLE %s;")
      (cons (identifier r.name) (cons (items (identifiers (m ∷ ms))) nil))

abbrev pub create_config : Role → Config → List SyncQuery
create_config r [] = []
create_config r ((k, v) ∷ config) =
    set_config r "Set role config." "ALTER ROLE %s SET %s TO %s" k v ∷ create_config r config

unfoldable pub create : Columns → Role → List SyncQuery
create columns r =
    hook "Run before create hook." r.before_create
    ++ (create_role columns r r.parents
        ∷ query "Set role comment." "COMMENT ON ROLE %s IS %s;"
            (cons (identifier r.name) (cons (text r.comment) nil))
        ∷ (elim r.config [ none ↦ [] | some config ↦ create_config r config ]
            ++ hook "Run after create hook." r.after_create))

-- The queries of one database, whose owner is `owner` by now.
abbrev pub reassign_objects : Role → Database → SyncQuery
reassign_objects r database = record {
  description = "Reassign objects and purge ACL.";
  database = database.name;
  query = "\n\t\t\tREASSIGN OWNED BY %s TO %s;\n\t\t\tDROP OWNED BY %s;";
  query_args =
      cons (identifier r.name) (cons (identifier database.owner) (cons (identifier r.name) nil));
}

abbrev pub reassign_database : Role → String → Database → List SyncQuery
reassign_database r fallback_owner database =
    if database.owner == r.name
    then query "Reassign database." "ALTER DATABASE %s OWNER TO %s;"
        (pair database.name fallback_owner)
      ∷ []
    else []

-- `database.Owner = fallbackOwner` where the role owned it.
abbrev pub new_owner : Role → String → Database → Database
new_owner r fallback_owner database =
    if database.owner == r.name then record database { owner = fallback_owner } else database

-- The loop over `postgres.Databases`: the queries, and the map that it leaves.
unfoldable pub drop_loop : Role → String → DbMap → List SyncQuery × DbMap
drop_loop r fallback_owner [] = ([], [])
drop_loop r fallback_owner ((dbname, database) ∷ m) =
    let (queries, m') = drop_loop r fallback_owner m in
    (
      reassign_database r fallback_owner database
          ++ (reassign_objects r (new_owner r fallback_owner database) ∷ queries),
      (dbname, new_owner r fallback_owner database) ∷ m',
    )

abbrev pub terminate : Role → List SyncQuery
terminate r =
    if r.options.can_login
    then record {
      description = "Terminate running sessions.";
      database = "<first>";
      query =
          "\n\t\t\tSELECT pg_terminate_backend(pid)\n\t\t\tFROM pg_catalog.pg_stat_activity\n\t\t\tWHERE usename = %s;";
      query_args = cons (text r.name) nil;
    }
      ∷ []
    else []

abbrev pub drop_role : Role → SyncQuery
drop_role r = query "Drop role." "DROP ROLE %s;" (cons (identifier r.name) nil)

unfoldable pub drop : Role → String → DbMap → List SyncQuery × DbMap
unfolding drop_loop
drop r fallback_owner databases =
    let (queries, databases') = drop_loop r fallback_owner databases in
    (
      terminate r
          ++ (queries
              ++ (query "Drop LOGIN." "ALTER ROLE %s NOLOGIN;" (cons (identifier r.name) nil)
                  ∷ drop_role r
                  ∷ [])),
      databases',
    )

-- The loop over `o.Parents`: the parents grow as it runs.
unfoldable pub merge_parents : List Membership → List Membership → List Membership
merge_parents parents [] = parents
merge_parents parents (m ∷ ms) =
    merge_parents (if is_member parents m.name then parents else parents ++ m ∷ []) ms

-- `maps.Copy`
unfoldable pub copy_config : Config → Config → Config
copy_config c [] = c
copy_config c ((k, v) ∷ o) = copy_config (insert k v c) o

abbrev pub merge_config : Option Config → Option Config → Option Config
merge_config none o = o
merge_config (some c) none = some c
merge_config (some c) (some o) = some (copy_config c o)

unfoldable pub merge : Role → Role → Role
unfolding merge_parents copy_config
merge r o = record r {
  parents = merge_parents r.parents o.parents;
  config = merge_config r.config o.config;
}
