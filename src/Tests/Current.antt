-- ===== src/Tests/Current.antt =====
-- The grants of a small instance, and a few calls for connections.
use ldap2pg.Common.{
  String, ◌≡◌, refl, false, List, [], ◌∷◌, Option, none, some, All, string_eq, if◌then◌else◌, ◌==◌,
}
use ldap2pg.Common.Outcome.{Outcome, ok, error, panic}
use ldap2pg.Common.Sets.{list_set}
use ldap2pg.Inspect.Rows.{Answer, rows}
use ldap2pg.Postgres.{Database, DbMap}
use ldap2pg.Postgres.Connection.{Event, asked, get_conn, Call, get, close, calls}
use ldap2pg.Postgres.Connection.Single.{IsSingle, Gets, get_conn-Gets}
use ldap2pg.Privileges.{Acl, Acls, Grant}
use ldap2pg.Privileges.Inspection.{Row, by_next, by_grant, by_err, iter_grants, inspect}
use ldap2pg.Privileges.Inspection.Received.{IsManaged, Settles}
use ldap2pg.Privileges.Inspection.Relevant.{IsLocated, inspect_ends, inspect_races}
use ldap2pg.Privileges.Registry.{database_grant, row_to, Managed}

abbrev schema_acl : Acl
schema_acl = record {
  name = "SCHEMA";
  scope = "database";
  inspect = "SELECT ...";
  grant = "GRANT <privilege> ON SCHEMA <schema> TO <grantee>";
  revoke = "REVOKE <privilege> ON SCHEMA <schema> FROM <grantee>";
}

abbrev pub acls : Acls
acls = ("SCHEMA", schema_acl) ∷ []

abbrev pub app : Database
app = record {
  name = "app";
  owner = "admin";
  schemas = ("public", record { name = "public"; owner = "admin"; creators = [] }) ∷ [];
}

abbrev pub answer : String → List String → Answer (Outcome Row)
answer sql types =
    rows
      (ok (record { texts = "USAGE" ∷ "public" ∷ "alice" ∷ []; flag = some false })
        ∷ ok (record { texts = "USAGE" ∷ "unknown" ∷ "alice" ∷ []; flag = some false })
        ∷ ok (record { texts = "USAGE" ∷ "public" ∷ "stranger" ∷ []; flag = some false })
        ∷ [])
      none

abbrev pub managed : Managed
managed = ("SCHEMA", "USAGE" ∷ []) ∷ []

registered : row_to schema_acl ≡ some database_grant
unfolding row_to string_eq
registered = refl

abbrev up : String → Option String
up name = none

abbrev databases : DbMap
databases = ("app", app) ∷ []

abbrev failing : String → List String → Answer (Outcome Row)
failing sql types =
    rows
      (ok (record { texts = "USAGE" ∷ "public" ∷ "alice" ∷ []; flag = some false })
        ∷ error "type mismatch"
        ∷ [])
      none

inspect_ends_example :
    Settles by_next
      (inspect list_set acls managed databases app "SCHEMA" ("alice" ∷ []) up answer by_next)
      (All (λ g. IsLocated databases app g × IsManaged list_set ("alice" ∷ []) g))
unfolding string_eq
inspect_ends_example =
    inspect_ends list_set acls managed databases app ("alice" ∷ []) up answer "SCHEMA"
      database_grant registered (tt, (tt, (tt, tt))) by_next

abbrev to_alice : Grant
to_alice = record {
  owner = "";
  grantee = "alice";
  acl = "SCHEMA";
  type = "USAGE";
  database = "app";
  schema = "public";
  object = "";
  partial = false;
}

failed :
    iter_grants acls managed databases app "SCHEMA" up failing
    ≡ ok (to_alice ∷ [], some "bad row: type mismatch")
unfolding iter_grants string_eq
failed = refl

inspect_races_example :
    (inspect list_set acls managed databases app "SCHEMA" ("alice" ∷ []) up failing by_next
      ≡ error "bad row: type mismatch")
    × (inspect list_set acls managed databases app "SCHEMA" ("alice" ∷ []) up failing by_err
        ≡ error "bad row: type mismatch")
    × (inspect list_set acls managed databases app "SCHEMA" ("alice" ∷ []) up failing by_grant
        ≡ panic)
inspect_races_example =
    inspect_races list_set acls managed databases app ("alice" ∷ []) up failing "SCHEMA" to_alice []
      "bad row: type mismatch" failed

one_grant :
    inspect list_set acls managed databases app "SCHEMA" ("alice" ∷ []) up answer by_err
    ≡ ok (to_alice ∷ [])
unfolding inspect string_eq
one_grant = refl

abbrev refuse : List Event → String → Option String
refuse events name = if name == "down" then some "refused" else none

abbrev some_calls : List (Call "postgres" refuse)
some_calls = get "" ∷ get "app" ∷ get "app" ∷ get "down" ∷ close ∷ get "" ∷ []

get_conn-Gets_example :
    (let g = calls "postgres" refuse some_calls (record { conn = none; events = [] }) in
      IsSingle g
      × ((name : String)
          → Gets "postgres" refuse
              (asked "postgres" refuse name)
              g
              (get_conn "postgres" refuse name g)))
get_conn-Gets_example = get_conn-Gets "postgres" refuse some_calls
