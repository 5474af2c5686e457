-- ===== src/Inspect/Stage3.antt =====
-- internal/inspect/stage3.go: the managed roles that can create objects in the schemas of a
-- database.
use ldap2pg.Common.{ℕ, String, List, [], ◌∷◌, ◌++◌, none, some, keep}
use ldap2pg.Common.Dict.{Dict, lookup, get_or, insert}
use ldap2pg.Common.Outcome.{Outcome, ok, ◌>>=◌, ◌>>◌, or_return, wrap}
use ldap2pg.Common.Sets.{SetOps}
use ldap2pg.Postgres.{Schema, DbMap, zero_database}
use ldap2pg.Inspect.{Server, Creators}
use ldap2pg.Inspect.Rows.{sql_query, read}

module _ (S : SetOps String) (managed_roles : S.Carrier) where
  -- The loop over the rows; those of a schema that is not managed are passed over.
  unfoldable pub add_creators : List Creators → Dict Schema → Dict Schema
  unfolding insert
  add_creators [] m = m
  add_creators (c ∷ rest) m = add_creators rest (elim (lookup c.schema m) [
    | none ↦ m
    | some s ↦
        insert c.schema
          (record s { creators = s.creators ++ keep (S.has managed_roles) c.creators }) m
  ])

  -- `InspectCreators`
  unfoldable pub inspect_creators : ℕ → Server → String → DbMap → Outcome DbMap
  unfolding add_creators insert read
  inspect_creators fuel server dbname databases = do
    let database = get_or databases dbname zero_database
    or_return (server.connect dbname)
    (rows, e) ← read (sql_query (λ row. row) (server.creators dbname)) fuel
    or_return e
    ok (insert dbname (record database { schemas = add_creators rows database.schemas }) databases)

  -- `InspectStage3`
  unfoldable pub stage3 : ℕ → Server → String → DbMap → Outcome DbMap
  unfolding inspect_creators
  stage3 fuel server dbname databases =
      wrap "creators: " (inspect_creators fuel server dbname databases)
