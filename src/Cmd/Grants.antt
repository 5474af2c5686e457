-- ===== src/Cmd/Grants.antt =====
-- internal/cmd/ldap2pg.go: the queries for roles are sent, then privileges are synchronised, one
-- database after the other. What was sent is kept however the run ends.
pub mod Extended
pub mod Justified
use ldap2pg.Common.{
  ℕ, zero, ◌+◌, String, ◌<>◌, Bool, true, not, ◌&&◌, List, [], ◌∷◌, ◌++◌, Option, none, some,
}
use ldap2pg.Common.{◌==◌, string_eq, if◌then◌else◌, ltb, length}
use ldap2pg.Common.Dict.{Dict, lookup, get_or, keys, is_some}
use ldap2pg.Common.Outcome.{Outcome, ok, error, panic, spent, ◌>>=◌, ◌>>◌}
use ldap2pg.Common.Sets.{SetOps}
use ldap2pg.ErrorList.{Error, message, join, ErrorList, new, append, rewrap, error_count}
use ldap2pg.ErrorList.{wrap as wrap_error}
use ldap2pg.Inspect.{Instance, Config, Server}
use ldap2pg.Inspect.Rows.{Answer}
use ldap2pg.Inspect.Stage2.{stage2}
use ldap2pg.Inspect.Stage3.{stage3}
use ldap2pg.Postgres.{SyncQuery, DbMap, zero_database, sync_order}
use ldap2pg.Postgres.Apply.{Applied, apply}
use ldap2pg.Privileges.{Acls, Grant}
use ldap2pg.Privileges.Inspection.{Row, Sight, by_next, by_grant, by_err, inspect}
use ldap2pg.Privileges.Registry.{Managed, Profiles, split_managed_acls}
use ldap2pg.Privileges.Sync.{sync}
use ldap2pg.Role.Map.{RoleMap}
use ldap2pg.Cmd.{Plan}

-- `errors.Join`, nil where there is none.
abbrev pub or_join : List Error → Option Error
or_join [] = none
or_join (e ∷ es) = some (join (rewrap (e ∷ es)))

-- The error that `Apply` returns.
abbrev pub apply_error : Applied → Option Error
apply_error a = if a.unreachable then some (message "PostgreSQL error") else or_join a.errors.errors

-- The variables of `syncPrivileges`.
pub record Synced : Type 0 where
  pub count : ℕ
  pub sent : List SyncQuery
  pub errors : List Error
  pub ending : Outcome (Unit {0})

abbrev pub idle : Outcome (Unit {0}) → Synced
idle ending = record { count = 0; sent = []; errors = []; ending = ending }

abbrev pub continue : Synced → Synced → Synced
continue s rest = elim s.ending [
  | ok _ ↦ record {
    count = s.count + rest.count;
    sent = s.sent ++ rest.sent;
    errors = s.errors ++ rest.errors;
    ending = rest.ending;
  }
  | error _ ↦ s
  | panic ↦ s
  | spent ↦ s
]

-- The variables of `ldap2pg` while it synchronises.
pub record Run : Type 0 where
  pub databases : DbMap
  pub errors : ErrorList
  pub count : ℕ
  pub sent : List SyncQuery
  pub ending : Outcome (Unit {0})

abbrev pub going : Run → (Run → Run) → Run
going r next = elim r.ending [ ok _ ↦ next r | error _ ↦ r | panic ↦ r | spent ↦ r ]

-- `if err != nil { return fmt.Errorf("inspect: %w", err) }`
abbrev pub inspected : Outcome DbMap → Run → (Run → Run) → Run
inspected (ok m) r next = next (record r { databases = m })
inspected (error x) r next = record r { ending = error ("inspect: " <> x) }
inspected panic r next = record r { ending = panic }
inspected spent r next = record r { ending = spent }

-- `syncErrors.Append` after a stage; the text of the errors is left out.
abbrev pub synced : String → Synced → Run → Run
synced stage s r =
    let counted = record r { count = r.count + s.count; sent = r.sent ++ s.sent } in
    let (errors, more) = append r.errors (or_join s.errors) in
    elim s.ending [
      | ok _ ↦ record counted { errors = errors; ending = if more then ok tt else error stage }
      | error x ↦ record counted { ending = error x }
      | panic ↦ record counted { ending = panic }
      | spent ↦ record counted { ending = spent }
    ]

-- `GetConn` reaches a database where a connection to it has no error.
abbrev pub reaches : Server → String → Bool
reaches server name = not (is_some (server.connect name))

-- `ArePrivilegesManaged`
abbrev pub are_privileges_managed : Profiles → Bool
are_privileges_managed profiles = ltb 0 (length profiles)

-- The effective set of managed roles.
abbrev pub effective_roles : (S : SetOps String) → RoleMap → RoleMap → S.Carrier
effective_roles S wanted managed_roles =
    let roles = S.new_set (keys wanted) in
    if is_some (lookup "public" managed_roles) then S.add roles "public" else roles

-- `exec` is the error of a query that is sent; `rows_of` answers an ACL's inspection query in a
-- database, and `sight_of` is how its inspection is scheduled.
module _ (S : SetOps String) (G : SetOps Grant) (server : Server) (exec : SyncQuery → Option Error)
    (really : Bool) (acls : Acls) (managed : Managed)
    (rows_of : String → String → List String → Answer (Outcome Row))
    (sight_of : String → String → Sight) where
  abbrev pub after_sync : Option (List SyncQuery) → Synced
  after_sync none = idle panic
  after_sync (some qs) =
      let a = apply (reaches server) exec really qs in
      record {
        count = a.count;
        sent = a.sent;
        errors = elim (apply_error a) [ none ↦ [] | some e ↦ wrap_error "sync: " e ∷ [] ];
        ending = ok tt;
      }

  abbrev pub after_inspect : DbMap → String → List Grant → Outcome (List Grant) → Synced
  after_inspect databases dbname wanted (ok current) =
      after_sync (sync G S acls databases dbname current wanted)
  after_inspect databases dbname wanted (error x) = record (idle (ok tt)) {
    errors = wrap_error "inspect: " (message x) ∷ [];
  }
  after_inspect databases dbname wanted panic = idle panic
  after_inspect databases dbname wanted spent = idle spent

  module _ (roles : S.Carrier) (all_wanted : Dict (List Grant)) where
    -- The body of the loop of `syncPrivileges`.
    unfoldable pub sync_acl : DbMap → String → String → Synced
    unfolding inspect sync apply
    sync_acl databases dbname acl = after_inspect databases dbname (get_or all_wanted acl []) (
        inspect S acls managed databases (get_or databases dbname zero_database) acl roles
          server.connect (rows_of dbname) (sight_of dbname acl))

    -- `syncPrivileges`
    unfoldable pub sync_privileges : DbMap → String → List String → Synced
    unfolding sync_acl
    sync_privileges databases dbname [] = idle (ok tt)
    sync_privileges databases dbname (acl ∷ rest) =
        continue (sync_acl databases dbname acl) (sync_privileges databases dbname rest)

    module _ (fuel : ℕ) (pc : Config) (default_database : String)
        (split : List String × List String × List String) where
      -- Stage 3, where there are default ACLs.
      unfoldable pub sync_defaults : String → List String → Run → Run
      unfolding stage3 sync_privileges append
      sync_defaults dbname [] r = r
      sync_defaults dbname (d ∷ ds) r =
          inspected (stage3 S roles fuel server dbname r.databases) r
            (λ r'. synced "stage 3" (sync_privileges r'.databases dbname (d ∷ ds)) r')

      -- The body of the loop over the databases.
      unfoldable pub sync_database : String → Run → Run
      unfolding stage2 sync_defaults sync_privileges append
      sync_database dbname r =
          let (instances, database_acls, defaults) = split in
          let names =
            (if dbname == default_database && ltb 0 (length instances) then instances else [])
            ++ database_acls in
          inspected (stage2 fuel server dbname pc.schemas_query r.databases) r (λ r1.
            going (synced "stage 2" (sync_privileges r1.databases dbname names) r1)
              (sync_defaults dbname defaults))

      unfoldable pub sync_databases : List String → Run → Run
      unfolding sync_database
      sync_databases [] r = r
      sync_databases (name ∷ names) r = going (sync_database name r) (λ r'. sync_databases names r')

  -- The queries for roles.
  unfoldable pub sync_roles : Plan S → Run
  unfolding apply append
  sync_roles p =
      let a = apply (reaches server) exec really p.queries in
      let (errors, more) = append (new "synchronization errors") (apply_error a) in
      record {
        databases = p.databases;
        errors = errors;
        count = a.count;
        sent = a.sent;
        ending = if more then ok tt else error "synchronization errors";
      }

  -- `ldap2pg`, from the queries for roles to the end of the loop.
  unfoldable pub sync_run : ℕ → Config → Profiles → Plan S → Run
  unfolding sync_roles sync_order sync_databases split_managed_acls
  sync_run fuel pc profiles p =
      let i = p.instance' in
      going (sync_roles p) (λ r.
        if are_privileges_managed profiles
        then (sync_databases (effective_roles S p.wants.roles i.managed_roles) p.wants.grants fuel
            pc i.default_database (split_managed_acls acls managed)
            (sync_order r.databases i.default_database true) r)
        else r)

-- How the program exits: without an error, with an exit code, or with the errors of the run.
pub data Exit : Type 0 where
  success : Exit
  code : ℕ → Exit
  errors : ErrorList → Exit

-- `Finalize`, but what is logged.
unfoldable pub finalize : Bool → ErrorList → ℕ → Exit
finalize check errs queries =
    if ltb 0 (error_count errs)
    then errors errs
    else if check && ltb 0 queries
    then code 1
    else success

-- The end of `ldap2pg`.
unfoldable pub exit_of : Bool → Run → Outcome Exit
unfolding finalize
exit_of check r = r.ending >> ok (finalize check r.errors r.count)
