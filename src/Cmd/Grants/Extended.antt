-- ===== src/Cmd/Grants/Extended.antt =====
-- What the stages of a run add to the queries that it has sent.
use ldap2pg.Common.{
  ℕ, String, true, ◌≡◌, refl, sym, ◌∙◌, ap, inl, inr, Bool, Bool-cases, List, [], ◌∷◌, ◌++◌,
  append-nil, append_assoc, Option, All, All-append,
}
use ldap2pg.Common.{if◌then◌else◌, ◌==◌, string_eq, ◌&&◌, ltb, length}
use ldap2pg.Common.Dict.{Dict}
use ldap2pg.Common.Outcome.{Outcome, ok, error, panic, spent}
use ldap2pg.Common.Sets.{SetOps}
use ldap2pg.ErrorList.{Error, ErrorList}
use ldap2pg.Inspect.{Config, Server}
use ldap2pg.Inspect.Rows.{Answer}
use ldap2pg.Inspect.Stage2.{stage2}
use ldap2pg.Inspect.Stage3.{stage3}
use ldap2pg.Postgres.{SyncQuery, DbMap, sync_order}
use ldap2pg.Privileges.{Acls, Grant}
use ldap2pg.Privileges.Inspection.{Row, Sight}
use ldap2pg.Privileges.Registry.{Managed, Profiles, split_managed_acls}
use ldap2pg.Cmd.{Plan}
use ldap2pg.Cmd.Grants.{
  Synced, continue, Run, going, inspected, synced, are_privileges_managed, sync_acl,
  sync_privileges, sync_defaults, sync_database, sync_databases, effective_roles, sync_roles,
  sync_run,
}

module _ {κ} (P : SyncQuery → Type κ) where
  -- The second run has sent more queries, of each of which `P` holds.
  abbrev pub Extends : Run → Run → Type κ
  Extends r r' = (rest : List SyncQuery) × (r'.sent ≡ r.sent ++ rest) × All P rest

  no_more : (xs : List SyncQuery) → (rest : List SyncQuery) × (xs ≡ xs ++ rest) × All P rest
  no_more xs = ([], sym (append-nil xs), tt)

  Extends-trans : (r r' r'' : Run) → Extends r r' → Extends r' r'' → Extends r r''
  Extends-trans r r' r'' (a, e, h) (b, f, k) =
      (a ++ b, f ∙ ap (λ x. x ++ b) e ∙ append_assoc r.sent a b, All-append P a b h k)

  continue_fields :
      (c : ℕ) (xs : List SyncQuery) (es : List Error) (end : Outcome (Unit {0})) (rest : Synced)
      → All P xs
      → All P rest.sent
      → All P (continue (record { count = c; sent = xs; errors = es; ending = end }) rest).sent
  continue_fields c xs es (ok done) rest h k = All-append P xs rest.sent h k
  continue_fields c xs es (error x) rest h k = h
  continue_fields c xs es panic rest h k = h
  continue_fields c xs es spent rest h k = h

  continue-All : (s rest : Synced) → All P s.sent → All P rest.sent → All P (continue s rest).sent
  continue-All s rest h k = continue_fields s.count s.sent s.errors s.ending rest h k

  synced_fields :
      (stage : String) (c : ℕ) (xs : List SyncQuery) (es : List Error) (end : Outcome (Unit {0}))
      (r : Run)
      → All P xs
      → Extends r (synced stage (record { count = c; sent = xs; errors = es; ending = end }) r)
  synced_fields stage c xs es (ok done) r h = (xs, refl, h)
  synced_fields stage c xs es (error x) r h = (xs, refl, h)
  synced_fields stage c xs es panic r h = (xs, refl, h)
  synced_fields stage c xs es spent r h = (xs, refl, h)

  synced-Extends :
      (stage : String) (s : Synced) (r : Run) → All P s.sent → Extends r (synced stage s r)
  synced-Extends stage s r h = synced_fields stage s.count s.sent s.errors s.ending r h

  inspected-Extends :
      (o : Outcome DbMap) (r : Run) (next : Run → Run)
      → ((r' : Run) → Extends r' (next r'))
      → Extends r (inspected o r next)
  inspected-Extends (ok m) r next h = h (record r { databases = m })
  inspected-Extends (error x) r next h = no_more r.sent
  inspected-Extends panic r next h = no_more r.sent
  inspected-Extends spent r next h = no_more r.sent

  going_fields :
      (m : DbMap) (es : ErrorList) (c : ℕ) (xs : List SyncQuery) (end : Outcome (Unit {0}))
      (next : Run → Run)
      → ((r' : Run) → Extends r' (next r'))
      → (let r : Run = record { databases = m; errors = es; count = c; sent = xs; ending = end } in
          Extends r (going r next))
  going_fields m es c xs (ok done) next h =
      let r : Run = record { databases = m; errors = es; count = c; sent = xs; ending = ok done } in
      h r
  going_fields m es c xs (error x) next h = no_more xs
  going_fields m es c xs panic next h = no_more xs
  going_fields m es c xs spent next h = no_more xs

  going-Extends :
      (r r1 : Run) (next : Run → Run)
      → Extends r r1
      → ((r' : Run) → Extends r' (next r'))
      → Extends r (going r1 next)
  going-Extends r r1 next h k =
      Extends-trans r r1 (going r1 next) h
        (going_fields r1.databases r1.errors r1.count r1.sent r1.ending next k)

-- What holds of every query that one ACL sends in one database holds of all that a run adds.
module _ (S : SetOps String) (G : SetOps Grant) (server : Server) (exec : SyncQuery → Option Error)
    (really : Bool) (acls : Acls) (managed : Managed)
    (rows_of : String → String → List String → Answer (Outcome Row))
    (sight_of : String → String → Sight) where
  module _ (P : SyncQuery → Type 0) (roles : S.Carrier) (wanted : Dict (List Grant))
      (each : (m : DbMap) (dbname acl : String)
        → All P
            (sync_acl S G server exec really acls managed rows_of sight_of roles wanted m dbname
              acl).sent) where
    abbrev stage : DbMap → String → List String → Synced
    stage = sync_privileges S G server exec really acls managed rows_of sight_of roles wanted

    sync_privileges-All :
        (m : DbMap) (dbname : String) (names : List String) → All P (stage m dbname names).sent
    unfolding sync_privileges
    sync_privileges-All m dbname [] = tt
    sync_privileges-All m dbname (acl ∷ names) =
        let first =
          sync_acl S G server exec really acls managed rows_of sight_of roles wanted m dbname acl in
        continue-All P first (stage m dbname names) (each m dbname acl)
          (sync_privileges-All m dbname names)

    module _ (fuel : ℕ) (pc : Config) (default_database : String)
        (split : List String × List String × List String) where
      abbrev defaults_of : String → List String → Run → Run
      defaults_of =
          sync_defaults S G server exec really acls managed rows_of sight_of roles wanted fuel pc
            default_database split

      sync_defaults-Extends :
          (dbname : String) (defaults : List String) (r : Run)
          → Extends P r (defaults_of dbname defaults r)
      unfolding sync_defaults
      sync_defaults-Extends dbname [] r = no_more P r.sent
      sync_defaults-Extends dbname (d ∷ ds) r =
          inspected-Extends P (stage3 S roles fuel server dbname r.databases) r
            (λ r'. synced "stage 3" (stage r'.databases dbname (d ∷ ds)) r')
            (λ r'.
              synced-Extends P "stage 3" (stage r'.databases dbname (d ∷ ds)) r'
                (sync_privileges-All r'.databases dbname (d ∷ ds)))

      sync_database-Extends :
          (dbname : String) (r : Run)
          → Extends P r (
              sync_database S G server exec really acls managed rows_of sight_of roles wanted fuel
                pc default_database split dbname r)
      unfolding sync_database
      sync_database-Extends dbname r =
          let names =
            (if dbname == default_database && ltb 0 (length split.0) then split.0 else [])
            ++ split.1 in
          let rest = defaults_of dbname split.2 in
          inspected-Extends P (stage2 fuel server dbname pc.schemas_query r.databases) r
            (λ r1. going (synced "stage 2" (stage r1.databases dbname names) r1) rest)
            (λ r1.
              let s = stage r1.databases dbname names in
              going-Extends P r1 (synced "stage 2" s r1) rest
                (synced-Extends P "stage 2" s r1 (sync_privileges-All r1.databases dbname names))
                (sync_defaults-Extends dbname split.2))

      pub sync_databases-Extends :
          (names : List String) (r : Run)
          → Extends P r (
              sync_databases S G server exec really acls managed rows_of sight_of roles wanted fuel
                pc default_database split names r)
      unfolding sync_databases
      sync_databases-Extends [] r = no_more P r.sent
      sync_databases-Extends (name ∷ names) r =
          going-Extends P r
            (sync_database S G server exec really acls managed rows_of sight_of roles wanted fuel pc
              default_database split name r)
            (sync_databases S G server exec really acls managed rows_of sight_of roles wanted fuel
              pc default_database split names)
            (sync_database-Extends name r) (sync_databases-Extends names)

  -- The same for the whole run, which starts from what the queries for roles sent.
  pub sync_run-Extends :
      (P : SyncQuery → Type 0) (fuel : ℕ) (pc : Config) (profiles : Profiles) (p : Plan S)
      → ((m : DbMap) (dbname acl : String)
          → All P
              (sync_acl S G server exec really acls managed rows_of sight_of
                (effective_roles S p.wants.roles p.instance'.managed_roles)
                p.wants.grants
                m
                dbname
                acl).sent)
      → Extends P
          (sync_roles S G server exec really acls managed rows_of sight_of p)
          (sync_run S G server exec really acls managed rows_of sight_of fuel pc profiles p)
  unfolding sync_run
  sync_run-Extends P fuel pc profiles p each =
      going-Extends P (sync_roles S G server exec really acls managed rows_of sight_of p)
        (sync_roles S G server exec really acls managed rows_of sight_of p)
        (λ r. if are_privileges_managed profiles then next r else r)
        (no_more P (sync_roles S G server exec really acls managed rows_of sight_of p).sent)
        (λ r. elim (Bool-cases (are_privileges_managed profiles)) [
          | inl on ↦ rw on (
              sync_databases-Extends P roles p.wants.grants each fuel pc
                p.instance'.default_database (split_managed_acls acls managed)
                (sync_order r.databases p.instance'.default_database true) r)
          | inr off ↦ rw off (no_more P r.sent)
        ])
    where
      roles : S.Carrier
      roles = effective_roles S p.wants.roles p.instance'.managed_roles

      next : Run → Run
      next r =
          sync_databases S G server exec really acls managed rows_of sight_of roles p.wants.grants
            fuel pc p.instance'.default_database (split_managed_acls acls managed)
            (sync_order r.databases p.instance'.default_database true) r
