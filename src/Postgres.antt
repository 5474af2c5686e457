-- ===== src/Postgres.antt =====
-- internal/postgres: the queries that the diffs send, and the databases inspected (objects.go,
-- queries.go). A database map is a `Dict`; `LogArgs` only reach the log and are left out.
pub mod Apply
pub mod Grouped
pub mod Sent
pub mod Connection
use ldap2pg.Common.{String, Bool, false, not, ◌&&◌, List, [], ◌∷◌, ◌++◌, Option, none, some}
use ldap2pg.Common.{◌==◌, string_eq, if◌then◌else◌, keep, ◌>>=◌}
use ldap2pg.Common.Dict.{Dict, lookup, keys, is_some}
use ldap2pg.Common.Sort.{sort}

-- The arguments of a query: an identifier, a text, or a list of arguments (`[]any`).
mutual
  pub data Arg : Type 0 where
    identifier : String → Arg
    text : String → Arg
    items : Args → Arg

  pub data Args : Type 0 where
    nil : Args
    cons : Arg → Args → Args

pub record SyncQuery : Type 0 where
  pub description : String
  pub database : String
  pub query : String
  pub query_args : Args

-- `SyncQuery{}`
abbrev pub zero_query : SyncQuery
zero_query = record { description = ""; database = ""; query = ""; query_args = nil }

unfoldable pub is_zero : SyncQuery → Bool
is_zero q = q.query == ""

pub record Schema : Type 0 where
  pub name : String
  pub owner : String
  pub creators : List String

pub record Database : Type 0 where
  pub name : String
  pub owner : String
  pub schemas : Dict Schema

-- `Database{}`
abbrev pub zero_database : Database
zero_database = record { name = ""; owner = ""; schemas = [] }

abbrev pub DbMap : Type 0
DbMap = Dict Database

unfoldable pub sync_order : DbMap → String → Bool → List String
sync_order m default_name default_first =
    let names = sort (keys m) in
    let ok = is_some (lookup default_name m) in
    (if default_first && ok then default_name ∷ [] else [])
    ++ (keep (λ name. not (default_name == name)) names
        ++ (if not default_first && ok then default_name ∷ [] else []))

-- The `switch` on the database of a query. `databases[0]` panics on an empty list.
unfoldable pub resolve : String → List String → SyncQuery → Option SyncQuery
resolve default_database databases q =
    if q.database == ""
    then some (record q { database = default_database })
    else if q.database == "<first>"
    then elim databases [ [] ↦ none | first ∷ _ ↦ some (record q { database = first }) ]
    else some q

unfoldable pub resolve_all : String → List String → List SyncQuery → Option (List SyncQuery)
unfolding resolve
resolve_all default_database databases [] = some []
resolve_all default_database databases (q ∷ qs) = resolve default_database databases q >>= λ q'.
    resolve_all default_database databases qs >>= λ qs'. some (q' ∷ qs')

-- The queries of one database, in the order in which they came.
abbrev pub on : String → List SyncQuery → List SyncQuery
on name = keep (λ q. q.database == name)

unfoldable pub emit : List String → List SyncQuery → List SyncQuery
emit [] queries = []
emit (name ∷ names) queries = on name queries ++ emit names queries

unfoldable pub group_by_database : DbMap → String → List SyncQuery → Option (List SyncQuery)
unfolding sync_order resolve_all emit
group_by_database m default_database queries =
    let databases = sync_order m default_database false in
    resolve_all default_database databases queries >>= λ qs. some (emit databases qs)
