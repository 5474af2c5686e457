-- ===== src/Tests/Queries.antt =====
-- Queries for two databases, one of them unknown, and a server that refuses every query.
use ldap2pg.Common.{String, ◌≡◌, refl, Bool, true, List, [], ◌∷◌, Option, some}
use ldap2pg.Common.{contains, string_eq, ◌==◌, ◌&&◌, ◌++◌, not, collect}
use ldap2pg.Common.Sort.{Nodup, sort}
use ldap2pg.Common.Sort.Sorted.{IsSorted}
use ldap2pg.Common.Dict.{keys, lookup, is_some}
use ldap2pg.ErrorList.{Error, message}
use ldap2pg.Postgres.{SyncQuery, DbMap, nil, zero_database, group_by_database}
use ldap2pg.Postgres.Grouped.{first, sent_to, group_by_database_lem}
use ldap2pg.Postgres.Apply.{initial, apply}
use ldap2pg.Postgres.Apply.Runs.{Ran, apply_really}

abbrev query : String → SyncQuery
query database = record {
  description = "Drop role.";
  database = database;
  query = "DROP ROLE old;";
  query_args = nil;
}

abbrev queries : List SyncQuery
queries = query "" ∷ query "<first>" ∷ query "gone" ∷ query "app" ∷ []

abbrev databases : DbMap
databases =
    ("postgres", record zero_database { name = "postgres" })
    ∷ ("app", record zero_database { name = "app" })
    ∷ []

default_known : is_some (lookup "postgres" databases) ≡ true
unfolding string_eq
default_known = refl

abbrev up : String → Bool
up name = true

abbrev refuses : SyncQuery → Option Error
refuses q = some (message "permission denied")

apply_really_example : Ran up refuses (λ name. refl) initial queries (apply up refuses true queries)
unfolding ldap2pg.ErrorList.joined
apply_really_example = apply_really up refuses (λ name. refl) (λ q. refl) queries

group_by_database_lem_example :
    (others : List String) × IsSorted others
    × Nodup others
    × ((n : String) → contains others n ≡ (contains (keys databases) n && not (n == "postgres")))
    × (group_by_database databases "postgres" queries
        ≡ some (
            collect
              (λ n. sent_to "postgres" (first others "postgres") n queries)
              (others ++ "postgres" ∷ [])))
unfolding string_eq
group_by_database_lem_example =
    group_by_database_lem databases "postgres" default_known (refl, (refl, tt)) queries

where_sent :
    group_by_database databases "postgres" queries
    ≡ some (query "app" ∷ query "app" ∷ query "postgres" ∷ [])
unfolding group_by_database string_eq sort
where_sent = refl
