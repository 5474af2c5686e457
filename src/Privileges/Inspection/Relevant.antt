-- ===== src/Privileges/Inspection/Relevant.antt =====
-- Which grants an inspection returns.
use ldap2pg.Common.{
  String, ◌<>◌, ◌≡◌, inl, inr, Bool, true, false, not, ◌&&◌, ◌||◌, List, [], ◌∷◌, Option, none,
  some,
}
use ldap2pg.Common.{◌==◌, string_eq, All, arith, Bool-cases, Option-cases}
use ldap2pg.Common.Dict.{lookup, get_or, is_some}
use ldap2pg.Common.Outcome.{Outcome, ok, error, panic, spent, ◌>>=◌}
use ldap2pg.Common.Sets.{SetOps}
use ldap2pg.Inspect.Rows.{Answer, refused, rows}
use ldap2pg.Normalize.Keys.{Ends, Ends-bind}
use ldap2pg.Postgres.{Database, DbMap}
use ldap2pg.Privileges.{Acl, Acls, zero_acl, Grant}
use ldap2pg.Privileges.Inspection.Received.{
  IsManaged, Settles, Settles-bind, receive_settles, receive-eq-error, receive-eq-panic,
}
use ldap2pg.Privileges.Registry.{
  RowTo, global_default, schema_default, instance_grant, database_grant, row_to, Managed,
}
use ldap2pg.Privileges.Inspection.{
  Row, scan_global, scan_schema, scan_instance, scan_as, send, after_row, moved, acl_row_to,
  located, iter_rows, iter_grants, Sight, by_next, by_grant, by_err, receive, inspect,
}

-- In no schema or in one of the database, and in no database, in this one or in one that is managed.
abbrev pub IsLocated : DbMap → Database → Grant → Type 0
IsLocated databases database g =
    ((g.schema == "" || is_some (lookup g.schema database.schemas)) ≡ true)
    × ((g.database == "" || (g.database == database.name || is_some (lookup g.database databases)))
        ≡ true)

abbrev pub Sends : DbMap → Database → Option Grant → Type 0
Sends databases database none = Unit
Sends databases database (some g) = IsLocated databases database g

module _ (databases : DbMap) (database : Database) (acl : Acl) where
  located-Sends : (g : Grant) → Sends databases database (located databases database acl g)
  unfolding located
  located-Sends g =
      elim (Bool-cases (not (g.database == "") && not (is_some (lookup g.database databases)))) [
        | inl far ↦ rw far tt
        | inr near ↦
            elim (Bool-cases
              (not (g.schema == "") && not (is_some (lookup g.schema database.schemas)))) [
                | inl unknown ↦ rw (near, unknown) tt
                | inr known ↦
                    elim (Bool-cases (g.database == "" && not (acl.scope == "instance"))) [
                      | inl here ↦ rw (near, known, here) (ground arith, ground arith)
                      | inr there ↦ rw (near, known, there) (ground arith, ground arith)
                    ]
              ]
      ]

  scan_global_ends : (texts : List String) → Ends (scan_global texts) (λ _. Unit {0})
  scan_global_ends (a ∷ (b ∷ (c ∷ (d ∷ [])))) = tt
  scan_global_ends _ = tt

  scan_schema_ends : (texts : List String) → Ends (scan_schema texts) (λ _. Unit {0})
  scan_schema_ends (a ∷ (b ∷ (c ∷ (d ∷ (e ∷ []))))) = tt
  scan_schema_ends _ = tt

  scan_instance_ends :
      (p : Bool) (texts : List String) → Ends (scan_instance p texts) (λ _. Unit {0})
  scan_instance_ends p (a ∷ (b ∷ (c ∷ []))) = tt
  scan_instance_ends p _ = tt

  scan_as_ends :
      (f : RowTo) (texts : List String) (flag : Option Bool)
      → Ends (scan_as f texts flag) (λ _. Unit {0})
  scan_as_ends global_default texts none = scan_global_ends texts
  scan_as_ends schema_default texts none = scan_schema_ends texts
  scan_as_ends instance_grant texts none = scan_instance_ends false texts
  scan_as_ends database_grant texts (some p) = scan_instance_ends p texts
  scan_as_ends global_default texts (some p) = tt
  scan_as_ends schema_default texts (some p) = tt
  scan_as_ends instance_grant texts (some p) = tt
  scan_as_ends database_grant texts none = tt

  acl_row_to_ends :
      (f : RowTo) → row_to acl ≡ some f → (r : Row) → Ends (acl_row_to acl r) (λ _. Unit {0})
  unfolding acl_row_to
  acl_row_to_ends f registered r =
      rw (registered, Ends)
        (Ends-bind (λ _. Unit {0}) (λ _. Unit {0}) (scan_as f r.texts r.flag)
          (λ g. ok (moved acl g)) (scan_as_ends f r.texts r.flag) (λ g _. tt))

  AllLocated : List Grant × Option String → Type 0
  AllLocated out = All (IsLocated databases database) out.0

  send-All :
      (o : Option Grant) (gs : List Grant)
      → Sends databases database o
      → All (IsLocated databases database) gs
      → All (IsLocated databases database) (send databases database acl o gs)
  send-All none gs s h = h
  send-All (some g) gs s h = (s, h)

  after_row_ends :
      (o : Outcome Grant) (rest : Outcome (List Grant × Option String))
      → Ends o (λ _. Unit {0})
      → Ends rest AllLocated
      → Ends (after_row databases database acl o rest) AllLocated
  unfolding AllLocated
  after_row_ends (ok g) rest h k =
      Ends-bind AllLocated AllLocated rest
        (λ out. ok (send databases database acl (located databases database acl g) out.0, out.1)) k
        (λ out l. send-All (located databases database acl g) out.0 (located-Sends g) l)
  after_row_ends (error x) rest h k = tt
  after_row_ends panic rest h k = absurd h
  after_row_ends spent rest h k = absurd h

  iter_rows_ends :
      (f : RowTo)
      → row_to acl ≡ some f
      → (name : String) (rs : List (Outcome Row)) (e : Option String)
      → All (λ r. Ends r (λ _. Unit {0})) rs
      → Ends (iter_rows databases database acl name rs e) AllLocated
  unfolding iter_rows AllLocated
  iter_rows_ends f registered name [] none h = tt
  iter_rows_ends f registered name [] (some e) h = tt
  iter_rows_ends f registered name (r ∷ rs) e h =
      after_row_ends (r >>= acl_row_to acl) (iter_rows databases database acl name rs e)
        (Ends-bind (λ _. Unit {0}) (λ _. Unit {0}) r (acl_row_to acl) h.0
          (λ row _. acl_row_to_ends f registered row))
        (iter_rows_ends f registered name rs e h.1)

-- What a query answers, with every row either scanned or refused.
abbrev pub IsScanned : Answer (Outcome Row) → Type 0
IsScanned (refused e) = Unit
IsScanned (rows rs e) = All (λ r. Ends r (λ _. Unit {0})) rs

module _ (S : SetOps String) (acls : Acls) (managed : Managed) (databases : DbMap)
    (database : Database) (roles : S.Carrier) (connect : String → Option String)
    (answer : String → List String → Answer (Outcome Row)) where
  iter_grants_ends :
      (name : String) (f : RowTo)
      → row_to (get_or acls name zero_acl) ≡ some f
      → IsScanned (answer (get_or acls name zero_acl).inspect (get_or managed name []))
      → Ends
          (iter_grants acls managed databases database name connect answer)
          (AllLocated databases database (get_or acls name zero_acl))
  unfolding iter_grants AllLocated
  iter_grants_ends name f registered scanned = elim (Option-cases (connect database.name)) [
    | inr (e, down) ↦ rw (down, iter_grants) tt
    | inl up ↦ rw (up, iter_grants) (go (answer acl.inspect (get_or managed name [])) scanned)
  ]
    where
      acl : Acl
      acl = get_or acls name zero_acl

      go :
          (a : Answer (Outcome Row))
          → IsScanned a
          → Ends
              (elim a [
                | refused e ↦ ok ([], some ("bad query: " <> e))
                | rows rs e ↦ iter_rows databases database (get_or acls name zero_acl) name rs e
              ])
              (AllLocated databases database (get_or acls name zero_acl))
      go (refused e) h = tt
      go (rows rs e) h =
          iter_rows_ends databases database (get_or acls name zero_acl) f registered name rs e h

  -- For an ACL that was registered, and rows that are each scanned or refused: `Inspect` ends, and
  -- panics only where `Grant` is the first to see an error that was set behind the last grant. The
  -- grants that it returns are in no schema or in a known schema of the database; in no database, in
  -- the one inspected, or in a managed one; and they go to a managed role unless their type is empty,
  -- and are of a managed owner or of none.
  pub inspect_ends :
      (name : String) (f : RowTo)
      → row_to (get_or acls name zero_acl) ≡ some f
      → IsScanned (answer (get_or acls name zero_acl).inspect (get_or managed name []))
      → (sight : Sight)
      → Settles sight
          (inspect S acls managed databases database name roles connect answer sight)
          (All (λ g. IsLocated databases database g × IsManaged S roles g))
  unfolding inspect AllLocated
  inspect_ends name f registered scanned sight =
      Settles-bind sight (AllLocated databases database (get_or acls name zero_acl)) _
        (iter_grants acls managed databases database name connect answer)
        (λ out. receive S roles sight out.0 out.1) (iter_grants_ends name f registered scanned)
        (λ out h. receive_settles S roles (IsLocated databases database) sight out.0 out.1 h)

  pub inspect_races :
      (name : String) (g : Grant) (gs : List Grant) (e : String)
      → iter_grants acls managed databases database name connect answer ≡ ok (g ∷ gs, some e)
      → (inspect S acls managed databases database name roles connect answer by_next ≡ error e)
        × (inspect S acls managed databases database name roles connect answer by_err ≡ error e)
        × (inspect S acls managed databases database name roles connect answer by_grant ≡ panic)
  unfolding inspect
  inspect_races name g gs e failed = rw failed (
    receive-eq-error S roles by_next tt gs g e,
    receive-eq-error S roles by_err tt gs g e,
    receive-eq-panic S roles gs g e,
  )
