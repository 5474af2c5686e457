-- ===== src/Inspect/Stage2.antt =====
-- internal/inspect/stage2.go: the managed schemas of a database.
use ldap2pg.Common.{ℕ, String, List, [], ◌∷◌, none, some, string_eq}
use ldap2pg.Common.{contains, keep, map}
use ldap2pg.Common.Dict.{Dict, lookup, insert}
use ldap2pg.Common.Outcome.{Outcome, ok, panic, ◌>>=◌, ◌>>◌, or_return, wrap}
use ldap2pg.Postgres.{Schema, DbMap, zero_database}
use ldap2pg.Inspect.{Server, row_to_schema}
use ldap2pg.Inspect.Rows.{Querier, sql_query, read}

-- `database.Schemas[s.Name] = s`, over the schemas that are managed.
unfoldable pub add_schemas : List Schema → Dict Schema → Dict Schema
unfolding insert
add_schemas [] m = m
add_schemas (s ∷ rest) m = add_schemas rest (insert s.name s m)

-- `InspectSchemas`. The zero database, of a name that is not in the map, has a nil map of schemas:
-- a write to it panics.
unfoldable pub inspect_schemas : ℕ → Server → String → Querier Schema → DbMap → Outcome DbMap
unfolding add_schemas insert read
inspect_schemas fuel server dbname managed_query databases = do
  or_return (server.connect dbname)
  (managed, e) ← read managed_query fuel
  or_return e
  (found, e') ← read (sql_query row_to_schema (server.schemas dbname)) fuel
  let kept = keep (λ (s : Schema). contains (map (λ (m : Schema). m.name) managed) s.name) found
  or_return e'
  elim (lookup dbname databases) [
    | some database ↦
        ok (
          insert dbname (record database { schemas = add_schemas kept database.schemas }) databases)
    | none ↦ elim kept [ [] ↦ ok (insert dbname zero_database databases) | _ ∷ _ ↦ panic ]
  ]

-- `InspectStage2`
unfoldable pub stage2 : ℕ → Server → String → Querier Schema → DbMap → Outcome DbMap
unfolding inspect_schemas
stage2 fuel server dbname query databases =
    wrap "schemas: " (inspect_schemas fuel server dbname query databases)
