-- ===== src/Inspect/Stage1.antt =====
-- internal/inspect/stage1.go: the managed databases, the roles of the instance, and those of them
-- that are managed; with `RowTo` of internal/role/role.go and internal/role/config.go. The loops
-- run over the rows once these are read: nothing else uses the connection in between.
pub mod Roles
pub mod Databases
use ldap2pg.Common.{ℕ, String, ◌<>◌, Bool, List, [], ◌∷◌, ◌++◌, Option, none, some}
use ldap2pg.Common.{◌==◌, string_eq, if◌then◌else◌}
use ldap2pg.Common.Dict.{lookup, get_or, insert, is_some}
use ldap2pg.Common.Outcome.{
  Outcome, ok, error, panic, spent, ◌>>=◌, ◌>>◌, or_return, or_panic, wrap,
}
use ldap2pg.Common.Sets.{SetOps}
use ldap2pg.Common.Text.{cut}
use ldap2pg.Lists.Blacklist.{match_string}
use ldap2pg.Postgres.{Database, DbMap}
use ldap2pg.Role.{Role, Membership}
use ldap2pg.Role
use ldap2pg.Role.Diff.{zero_role}
use ldap2pg.Role.Map.{RoleMap}
use ldap2pg.Role.RoleOptions.{Columns, process_columns, load_row, zero_options}
use ldap2pg.Inspect.{Instance, Config, Server, RoleRow, row_to_database}
use ldap2pg.Inspect.Rows.{Querier, sql_query, read}

-- `Config.Parse`: `strings.SplitN(row, "=", 2)` yields two parts where the sign is found.
unfoldable pub parse_config : List String → Role.Config → Role.Config
unfolding cut insert
parse_config [] c = c
parse_config (row ∷ rest) c =
    let (key, value, found) = cut row b'=' in
    parse_config rest (if found then insert key value c else c)

unfoldable pub decode_parents : List (Option (Outcome Membership)) → Outcome (List Membership)
decode_parents [] = ok []
decode_parents (none ∷ rest) = decode_parents rest
decode_parents (some jsonb ∷ rest) = jsonb >>= λ m. decode_parents rest >>= λ ms. ok (m ∷ ms)

-- `RowTo`
unfoldable pub row_to_role : Columns → Outcome RoleRow → Outcome Role
unfolding parse_config decode_parents load_row
row_to_role columns scanned = do
  row ← scanned
  parents ← decode_parents row.parents
  options ← or_panic (load_row columns.order row.variable_row zero_options)
  ok (record {
    name = row.name;
    comment = row.comment;
    parents = parents;
    options = options;
    config = some (parse_config row.config []);
    before_create = "";
    after_create = "";
  })

module _ (S : SetOps String) where
  abbrev pub add_all : S.Carrier → List String → S.Carrier
  add_all managed [] = managed
  add_all managed (name ∷ names) = add_all (S.add managed name) names

  unfoldable pub find_databases : S.Carrier → List Database → DbMap → DbMap
  unfolding insert
  find_databases managed [] m = m
  find_databases managed (db ∷ dbs) m =
      find_databases managed dbs (if S.has managed db.name then insert db.name db m else m)

  unfoldable pub inspect_managed_databases :
      ℕ → Server → Instance S → Querier String → Outcome (Instance S × DbMap)
  unfolding find_databases read
  inspect_managed_databases fuel server instance' q = do
    (names, e) ← read q fuel
    or_return e
    let managed = add_all instance'.managed_databases names
    (dbs, e') ← read (sql_query row_to_database server.databases) fuel
    or_return e'
    let databases = find_databases managed dbs []
    (if is_some (lookup instance'.default_database databases)
        then ok (record instance' { managed_databases = managed }, databases)
        else error "connected to an unmanaged database")

module _ (match : String → String → Option Bool) (blacklist : List String) where
  -- The loop over the roles of the instance.
  unfoldable pub find_roles : List Role → RoleMap → Outcome RoleMap
  unfolding match_string insert
  find_roles [] m = ok m
  find_roles (r ∷ rs) m = or_panic (match_string match blacklist r.name) >>= λ pattern.
      find_roles rs (if pattern == "" then insert r.name r m else m)

  -- The loop over the names of managed roles.
  unfoldable pub manage_roles : RoleMap → List String → RoleMap → Outcome RoleMap
  unfolding match_string insert
  manage_roles all [] m = ok m
  manage_roles all (name ∷ names) m = or_panic (match_string match blacklist name) >>= λ pattern.
      manage_roles all names
        (if pattern == "" then insert name (get_or all name zero_role) m else m)

-- The managed roles: all of them where the query is nil, which then share the map.
unfoldable pub select_managed :
    (String → String → Option Bool)
    → ℕ
    → List String
    → RoleMap
    → Option (Querier String)
    → Outcome RoleMap
unfolding manage_roles read
select_managed match fuel blacklist all none = ok all
select_managed match fuel blacklist all (some q) = do
  (names, e) ← read q fuel
  managed ← manage_roles match blacklist all names []
  wrap "managed_roles_query: " (or_return e)
  ok managed

-- `InspectRoles`, with the columns that the options are printed by from then on.
unfoldable pub inspect_roles :
    {S : SetOps String}
    → (String → String → Option Bool)
    → ℕ
    → Columns
    → Server
    → Instance S
    → Option (Querier String)
    → Outcome (Instance S × Columns)
unfolding find_roles select_managed read process_columns
inspect_roles match fuel global server instance' managed_roles_q = do
  (columns, e) ← read (sql_query (λ row. row) server.role_columns) fuel
  wrap "columns: " (or_return e)
  let processed = process_columns global columns instance'.me.options.super
  (roles, e') ← read (sql_query (row_to_role processed) (server.roles processed.order)) fuel
  all ← find_roles match instance'.roles_blacklist roles []
  wrap "all: " (or_return e')
  managed ← select_managed match fuel instance'.roles_blacklist all managed_roles_q
  ok (record instance' { all_roles = all; managed_roles = managed }, processed)

-- `InspectStage1`
unfoldable pub stage1 :
    (S : SetOps String)
    → (String → String → Option Bool)
    → ℕ
    → Columns
    → Server
    → Config
    → Instance S
    → Outcome (Instance S × Columns × DbMap)
unfolding inspect_managed_databases inspect_roles
stage1 S match fuel global server pc instance' = do
  or_return (server.connect "")
  (with_databases, databases) ← wrap "databases: " (
      inspect_managed_databases S fuel server
        (record instance' { managed_databases = S.new_set [] }) pc.databases_query)
  (with_roles, columns) ←
      wrap "roles: " (inspect_roles match fuel global server with_databases pc.managed_roles_query)
  ok (with_roles, columns, databases)
