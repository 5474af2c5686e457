-- ===== src/Tests/Instances.antt =====
-- The inspection of a server with three roles, one of them blacklisted, and a run on it.
use ldap2pg.Common.{String, ◌≡◌, refl, true, false, List, [], ◌∷◌, none, some}
use ldap2pg.Common.{string_eq, All, arith}
use ldap2pg.Common.Int.{negsuc}
use ldap2pg.Common.Outcome.{Outcome, ok, error}
use ldap2pg.Common.Sets.{list_set, list_set-IsLawful}
use ldap2pg.Lists.Blacklist.{check}
use ldap2pg.Postgres.{Database}
use ldap2pg.Role.{Role}
use ldap2pg.Role.Map.{RoleMap}
use ldap2pg.Role.Diff.Queries.{created, dropped}
use ldap2pg.Role.RoleOptions.{Columns, bool, int, process_columns, zero_options}
use ldap2pg.Inspect.{Instance, Config, Session, RoleRow, Server, row_to_database}
use ldap2pg.Inspect.Rows.{Answer, rows, yaml_query, sql_query, read}
use ldap2pg.Inspect.Rows.Reads.{answered, read-sql_query, read-yaml_query}
use ldap2pg.Inspect.Stage0.{blacklist_self, stage0}
use ldap2pg.Inspect.Stage0.Blacklisted.{Blacklists, returned, stage0_lem}
use ldap2pg.Inspect.Stage1.{row_to_role, inspect_managed_databases, inspect_roles}
use ldap2pg.Inspect.Stage1.Databases
use ldap2pg.Inspect.Stage1.Databases.{inspect_managed_databases_lem}
use ldap2pg.Inspect.Stage1.Roles.{allowed, Finds, inspect_roles_lem}
use ldap2pg.Wanted.Run.{Wants, Yield, yields, run}
use ldap2pg.Cmd.{Plan, plan_roles}
use ldap2pg.Cmd.Spared.{IsReadable, plan_roles-Allowed}
use ldap2pg.Tests.Rules.{equals, equals-IsStrict, role}

abbrev session : Session
session = record { server_version_num = 160002; database = "app"; user = "admin"; super = false }

abbrev row : String → RoleRow
row name = record {
  name = name;
  variable_row = bool true ∷ int (negsuc 0) ∷ [];
  comment = "";
  parents = none ∷ [];
  config = "work_mem=4MB" ∷ [];
}

abbrev pub server : Server
server = record {
  connect = λ name. none;
  session = rows (ok session ∷ []) none;
  databases = rows (ok ("app", "admin") ∷ ok ("other", "admin") ∷ []) none;
  role_columns = rows (ok "rolcanlogin" ∷ ok "rolsuper" ∷ ok "rolconnlimit" ∷ []) none;
  roles = λ columns. rows (ok (row "postgres") ∷ ok (row "alice") ∷ ok (row "old") ∷ []) none;
  schemas = λ name. rows [] none;
  creators = λ name. rows [] none;
}

abbrev pub config : Config
config = record {
  fallback_owner = "";
  databases_query = yaml_query ("app" ∷ []);
  managed_roles_query = none;
  roles_blacklist_query = yaml_query ("postgres" ∷ []);
  schemas_query = yaml_query [];
}

abbrev pub no_columns : Columns
no_columns = record { availability = []; order = [] }

abbrev wanted_yields : List Yield
wanted_yields = yields (role "alice" [] ∷ role "bob" [] ∷ role "admin" [] ∷ []) [] ∷ []

abbrev raw : Answer (Outcome String)
raw = rows (ok "a" ∷ error "bad" ∷ ok "c" ∷ []) none

abbrev plain : Outcome String → Outcome String
plain r = r

read-sql_query_example : read (sql_query plain raw) 4 ≡ answered plain raw
read-sql_query_example = read-sql_query plain 4 raw (omega arith)

abbrev two_names : List String
two_names = "app" ∷ "other" ∷ []

read-yaml_query_example : read (yaml_query two_names) 3 ≡ ok (two_names, none)
read-yaml_query_example = read-yaml_query 3 two_names (omega arith)

patterns_read : read config.roles_blacklist_query 5 ≡ ok ("postgres" ∷ [], none)
unfolding read
patterns_read = refl

stage0_lem_example :
    Blacklists "admin" ("postgres" ∷ []) (blacklist_self "admin" ("postgres" ∷ []))
    × (stage0 list_set equals 5 server config
        ≡ returned list_set equals session "" (blacklist_self "admin" ("postgres" ∷ [])) none)
stage0_lem_example =
    stage0_lem list_set equals 5 server config session none ("postgres" ∷ []) none refl refl
      patterns_read

abbrev pub blank : Instance list_set
blank = record {
  all_roles = [];
  default_database = "app";
  fallback_owner = "admin";
  managed_databases = [];
  managed_roles = [];
  me = role "admin" [];
  roles_blacklist = "postgres" ∷ "admin" ∷ [];
}

abbrev databases : List Database
databases =
    record { name = "app"; owner = "admin"; schemas = [] }
    ∷ record { name = "other"; owner = "admin"; schemas = [] }
    ∷ []

names_read : read config.databases_query 5 ≡ ok ("app" ∷ [], none)
unfolding read
names_read = refl

databases_read : read (sql_query row_to_database server.databases) 5 ≡ ok (databases, none)
unfolding read
databases_read = refl

inspect_managed_databases_lem_example :
    Databases.Answers list_set list_set-IsLawful blank
      ("app" ∷ [])
      databases
      (inspect_managed_databases list_set 5 server blank config.databases_query)
inspect_managed_databases_lem_example =
    inspect_managed_databases_lem list_set list_set-IsLawful 5 server blank config.databases_query
      ("app" ∷ []) databases (λ k. refl) names_read databases_read

abbrev columns : List String
columns = "rolcanlogin" ∷ "rolsuper" ∷ "rolconnlimit" ∷ []

columns_read : read (sql_query (λ r. r) server.role_columns) 5 ≡ ok (columns, none)
unfolding read
columns_read = refl

abbrev found : String → Role
found name = record {
  name = name;
  comment = "";
  parents = [];
  options = record zero_options { can_login = true; conn_limit = negsuc 0 };
  config = some (("work_mem", "4MB") ∷ []);
  before_create = "";
  after_create = "";
}

abbrev instance_roles : List Role
instance_roles = found "postgres" ∷ found "alice" ∷ found "old" ∷ []

roles_read :
    (let processed = process_columns no_columns columns false in
      read (sql_query (row_to_role processed) (server.roles processed.order)) 5)
    ≡ ok (instance_roles, none)
unfolding read row_to_role process_columns string_eq
roles_read = refl

accepts : check equals ("postgres" ∷ "admin" ∷ []) ≡ true
unfolding check
accepts = refl

inspect_roles_lem_example :
    (all : RoleMap) × (managed : RoleMap) × (inspect_roles equals 5 no_columns server blank none
      ≡ ok (
        record blank { all_roles = all; managed_roles = managed },
        process_columns no_columns columns false,
      ))
    × Finds list_set equals equals-IsStrict
        ("postgres" ∷ "admin" ∷ [])
        none
        instance_roles
        []
        all
        managed
inspect_roles_lem_example =
    inspect_roles_lem list_set equals equals-IsStrict 5 no_columns server blank none columns
      instance_roles [] accepts columns_read roles_read tt

listed : blacklist_self "admin" ("postgres" ∷ []) ≡ "postgres" ∷ "admin" ∷ []
unfolding blacklist_self string_eq
listed = refl

readable : IsReadable equals 5 no_columns server config session ("postgres" ∷ [])
unfolding string_eq
readable = record {
  names = "app" ∷ [];
  databases = databases;
  columns = columns;
  roles = instance_roles;
  managed = [];
  reached = refl;
  session = refl;
  entitled = refl;
  patterns_read = patterns_read;
  valid = rw listed accepts;
  names_read = names_read;
  databases_read = databases_read;
  default_managed = refl;
  columns_read = columns_read;
  roles_read = roles_read;
  managed_read = tt;
}

abbrev pub wants : Wants
wants = record {
  roles = ("alice", role "alice" []) ∷ ("bob", role "bob" []) ∷ [];
  grants = [];
  errors = [];
}

ran : run equals (blacklist_self "admin" ("postgres" ∷ [])) 3 wanted_yields ≡ some wants
unfolding run blacklist_self string_eq
ran = refl

plan_roles-Allowed_example :
    (let blacklist = blacklist_self "admin" ("postgres" ∷ []) in
      (p : Plan list_set) × (plan_roles list_set equals 5 3 no_columns server config
          (λ bl. run equals bl 3 wanted_yields)
        ≡ ok p)
      × (p.wants ≡ wants)
      × All (λ n. allowed equals blacklist n ≡ true) (created p.queries)
      × All (λ n. allowed equals blacklist n ≡ true) (dropped p.queries)
      × Blacklists "admin" ("postgres" ∷ []) blacklist)
plan_roles-Allowed_example =
    plan_roles-Allowed list_set list_set-IsLawful equals equals-IsStrict 5 3 no_columns server
      config session ("postgres" ∷ []) readable (λ bl. run equals bl 3 wanted_yields) wanted_yields
      wants refl ran refl
