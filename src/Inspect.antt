-- ===== src/Inspect.antt =====
-- internal/inspect: what the program reads from an instance. `Inspect.Rows` is query.go, and the
-- other children are the stages; this file has their state, their configuration (config.go), and
-- the answers of the server.
pub mod Rows
pub mod Stage0
pub mod Stage1
pub mod Stage2
pub mod Stage3
use ldap2pg.Common.{ℕ, zero, suc, String, Bool, List, [], ◌∷◌, Option, none, some}
use ldap2pg.Common.Outcome.{Outcome, ok, error, panic, ◌>>=◌}
use ldap2pg.Common.Sets.{SetOps}
use ldap2pg.Postgres.{Schema, Database}
use ldap2pg.Role.{Role, Membership}
use ldap2pg.Role.RoleOptions.{Value}
use ldap2pg.Role.Map.{RoleMap}
use Rows.{Querier, Answer}

pub record Instance (S : SetOps String) : Type 0 where
  pub all_roles : RoleMap
  pub default_database : String
  pub fallback_owner : String
  pub managed_databases : S.Carrier
  pub managed_roles : RoleMap
  pub me : Role
  pub roles_blacklist : List String

-- `Config`; a nil `ManagedRolesQuery` is `none`.
pub record Config : Type 1 where
  pub fallback_owner : String
  pub databases_query : Querier String
  pub managed_roles_query : Option (Querier String)
  pub roles_blacklist_query : Querier String
  pub schemas_query : Querier Schema

-- The columns of the session query, but the server's version in words and the cluster's name, which
-- are only logged.
pub record Session : Type 0 where
  pub server_version_num : ℕ
  pub database : String
  pub user : String
  pub super : Bool

-- The columns of the role query. A parent is null, or what `mapstructure.Decode` makes of it.
pub record RoleRow : Type 0 where
  pub name : String
  pub variable_row : List Value
  pub comment : String
  pub parents : List (Option (Outcome Membership))
  pub config : List String

-- A row of one, of two, or of another number of columns.
pub data SchemaRow : Type 0 where
  one : Outcome String → SchemaRow
  two : Outcome (String × String) → SchemaRow
  other : SchemaRow

-- `Creators`
pub record Creators : Type 0 where
  pub schema : String
  pub creators : List String

-- What the server answers: the error of a connection to a database, and the rows of the queries of
-- the program, each with what `Scan` makes of it.
pub record Server : Type 0 where
  pub connect : String → Option String
  pub session : Answer (Outcome Session)
  pub databases : Answer (Outcome (String × String))
  pub role_columns : Answer (Outcome String)
  pub roles : List String → Answer (Outcome RoleRow)
  pub schemas : String → Answer SchemaRow
  pub creators : String → Answer (Outcome Creators)

-- `RowToDatabase`
abbrev pub row_to_database : Outcome (String × String) → Outcome Database
row_to_database row = row >>= λ r. ok (record { name = r.0; owner = r.1; schemas = [] })

-- `RowToSchema`
abbrev pub row_to_schema : SchemaRow → Outcome Schema
row_to_schema (one row) = row >>= λ name. ok (record { name = name; owner = ""; creators = [] })
row_to_schema (two row) = row >>= λ r. ok (record { name = r.0; owner = r.1; creators = [] })
row_to_schema other = error "wrong number of returned columns"
