-- ===== src/Privileges/Inspection.antt =====
-- internal/privileges/inspect.go, and the reading of rows (acl.go): the grants that an instance has.
pub mod Received
pub mod Relevant
use ldap2pg.Common.{
  String, ◌<>◌, Bool, true, false, not, ◌&&◌, List, [], ◌∷◌, ◌++◌, Option, none, some,
}
use ldap2pg.Common.{◌==◌, string_eq, if◌then◌else◌, keep}
use ldap2pg.Common.Dict.{Dict, lookup, get_or, is_some}
use ldap2pg.Common.Outcome.{Outcome, ok, error, panic, spent, ◌>>=◌, ◌>>◌, or_return, wrap}
use ldap2pg.Common.Sets.{SetOps}
use ldap2pg.Inspect.Rows.{Answer, refused, rows}
use ldap2pg.Postgres.{Database, DbMap}
use ldap2pg.Privileges.{Acl, Acls, zero_acl, uses, Grant, is_wildcard}
use ldap2pg.Privileges.Registry.{
  RowTo, global_default, schema_default, instance_grant, database_grant, row_to, Managed,
}

-- The columns of a row: texts, and the flag of a partial grant behind them.
pub record Row : Type 0 where
  pub texts : List String
  pub flag : Option Bool

abbrev pub grant : String → String → String → String → String → Bool → Grant
grant owner schema type object grantee partial = record {
  owner = owner;
  grantee = grantee;
  acl = "";
  type = type;
  database = "";
  schema = schema;
  object = object;
  partial = partial;
}

abbrev scan_error : Outcome Grant
scan_error = error "number of field descriptions must equal number of destinations"

-- The four functions that scan a row; the count of the columns is checked by pgx.
abbrev pub scan_global : List String → Outcome Grant
scan_global (owner ∷ (type ∷ (object ∷ (grantee ∷ [])))) =
    ok (grant owner "" type object grantee false)
scan_global _ = scan_error

abbrev pub scan_schema : List String → Outcome Grant
scan_schema (owner ∷ (schema ∷ (type ∷ (object ∷ (grantee ∷ []))))) =
    ok (grant owner schema type object grantee false)
scan_schema _ = scan_error

abbrev pub scan_instance : Bool → List String → Outcome Grant
scan_instance partial (type ∷ (object ∷ (grantee ∷ []))) =
    ok (grant "" "" type object grantee partial)
scan_instance partial _ = scan_error

abbrev pub scan_as : RowTo → List String → Option Bool → Outcome Grant
scan_as global_default texts none = scan_global texts
scan_as schema_default texts none = scan_schema texts
scan_as instance_grant texts none = scan_instance false texts
scan_as database_grant texts (some partial) = scan_instance partial texts
scan_as _ _ _ = scan_error

-- The moves of `RowTo`, once the row is scanned.
unfoldable pub moved : Acl → Grant → Grant
unfolding uses
moved a g =
    let named = if g.acl == "" then record g { acl = a.name } else g in
    if uses a "object"
    then named
    else if uses a "database"
    then record named { database = g.object; object = "" }
    else if g.schema == "" && uses a "schema"
    then record named { schema = g.object; object = "" }
    else named

-- `RowTo`. The function is nil in an ACL that was not registered.
unfoldable pub acl_row_to : Acl → Row → Outcome Grant
unfolding row_to moved
acl_row_to a r = elim (row_to a) [
  | none ↦ panic
  | some f ↦ scan_as f r.texts r.flag >>= λ g. ok (moved a g)
]

module _ (databases : DbMap) (database : Database) (acl : Acl) where
  -- What `iterGrants` makes of one grant: the grant that it sends, if any.
  unfoldable pub located : Grant → Option Grant
  located g =
      let placed =
        if g.database == "" && not (acl.scope == "instance")
        then record g { database = database.name }
        else g in
      if not (g.database == "") && not (is_some (lookup g.database databases))
      then none
      else if not (g.schema == "") && not (is_some (lookup g.schema database.schemas))
      then none
      else some placed

  abbrev pub send : Option Grant → List Grant → List Grant
  send none gs = gs
  send (some g) gs = g ∷ gs

  abbrev pub after_row :
      Outcome Grant → Outcome (List Grant × Option String) → Outcome (List Grant × Option String)
  after_row (ok g) rest = rest >>= λ out. ok (send (located g) out.0, out.1)
  after_row (error x) rest = ok ([], some ("bad row: " <> x))
  after_row panic rest = panic
  after_row spent rest = spent

  -- The loop over the rows: the grants sent, and the error that ends them.
  unfoldable pub iter_rows :
      String → List (Outcome Row) → Option String → Outcome (List Grant × Option String)
  unfolding acl_row_to located
  iter_rows name [] none = ok ([], none)
  iter_rows name [] (some e) = ok ([], some (name <> ": " <> e))
  iter_rows name (r ∷ rs) e =
      let rest = iter_rows name rs e in after_row (r >>= acl_row_to acl) rest

-- `iterGrants` of an ACL, by its name. What the server answers to the ACL's query, with the types
-- that are managed, is a parameter.
unfoldable pub iter_grants :
    Acls
    → Managed
    → DbMap
    → Database
    → String
    → (String → Option String)
    → (String → List String → Answer (Outcome Row))
    → Outcome (List Grant × Option String)
unfolding iter_rows
iter_grants acls managed databases database name connect answer =
    let acl = get_or acls name zero_acl in
    elim (connect database.name) [
      | some e ↦ ok ([], some e)
      | none ↦ elim (answer acl.inspect (get_or managed name [])) [
        | refused e ↦ ok ([], some ("bad query: " <> e))
        | rows rs e ↦ iter_rows databases database acl name rs e
      ]
    ]

-- The grants that the loop of `Inspect` keeps.
abbrev pub is_relevant : (S : SetOps String) → S.Carrier → Grant → Bool
is_relevant S roles g =
    if is_wildcard g && not (S.has roles g.grantee)
    then false
    else if not (g.owner == "") && not (S.has roles g.owner)
    then false
    else true

-- `iterGrants` runs beside the loop of `Inspect` and sets `i.err` once its last grant was received:
-- which of `Next`, `Grant` and `Err` is the first to see that error is up to the scheduler.
pub data Sight : Type 0 where
  by_next : Sight
  by_grant : Sight
  by_err : Sight

-- `i.err` may be set, as no grant is left to send.
abbrev pub is_set : List Grant → Option String → Bool
is_set [] (some e) = true
is_set _ _ = false

-- The loop of `Inspect`, over what it receives. `Next` returns false where it sees the error, and
-- `Grant` panics.
unfoldable pub receive :
    (S : SetOps String) → S.Carrier → Sight → List Grant → Option String → Outcome (List Grant)
receive S roles sight [] e = or_return e >> ok []
receive S roles sight (g ∷ gs) e =
    let rest = receive S roles sight gs e in
    let read = rest >>= λ out. ok (if is_relevant S roles g then g ∷ out else out) in
    if is_set gs e
    then elim sight [ by_next ↦ or_return e >> ok [] | by_grant ↦ panic | by_err ↦ read ]
    else read

-- `Inspect`. Its caller passes over the grants that come with an error.
unfoldable pub inspect :
    (S : SetOps String)
    → Acls
    → Managed
    → DbMap
    → Database
    → String
    → S.Carrier
    → (String → Option String)
    → (String → List String → Answer (Outcome Row))
    → Sight
    → Outcome (List Grant)
unfolding iter_grants receive
inspect S acls managed databases database name roles connect answer sight =
    iter_grants acls managed databases database name connect answer >>= λ out.
    receive S roles sight out.0 out.1
