-- ===== src/Cmd/Grants/Justified.antt =====
-- The queries that synchronise privileges, over all stages of a run.
use ldap2pg.Common.{
  String, ◌≡◌, refl, ◌∙◌, ap, inl, inr, Bool, true, false, ◌||◌, List, [], ◌∷◌, ◌++◌,
}
use ldap2pg.Common.{ℕ, suc, Option, none, some, ◌==◌, string_eq, arith, Bool-cases}
use ldap2pg.Common.{All, All-map, All-append}
use ldap2pg.Common.Dict.{Dict, get_or}
use ldap2pg.Common.Outcome.{Outcome, ok, error, panic, spent}
use ldap2pg.Common.Outcome.{◌>>=◌}
use ldap2pg.Common.Sets.{SetOps}
use ldap2pg.ErrorList.{Error, append}
use ldap2pg.Inspect.{Config, Server}
use ldap2pg.Inspect.Rows.{Answer}
use ldap2pg.Postgres.{SyncQuery, Database, DbMap, zero_database}
use ldap2pg.Postgres.Apply.{Applied, initial, apply_loop, apply}
use ldap2pg.Privileges.{Acls, Grant}
use ldap2pg.Privileges.Inspection.{Row, Sight, iter_grants, receive, inspect}
use ldap2pg.Privileges.Inspection.Received.{IsManaged, Settles, receive_settles}
use ldap2pg.Privileges.Registry.{Managed, Profiles}
use ldap2pg.Privileges.Sync.{sync}
use ldap2pg.Privileges.Sync.Origin.{ComesFrom, sync-ComesFrom}
use ldap2pg.Cmd.{Plan}
use ldap2pg.Cmd.Grants.{
  reaches, after_sync, after_inspect, sync_acl, effective_roles, sync_roles, sync_run,
}
use ldap2pg.Cmd.Grants.Extended.{sync_run-Extends}

module _ (reachable : String → Bool) (exec : SyncQuery → Option Error) where
  apply_loop-All :
      (P : SyncQuery → Type 0) (really : Bool) (a : Applied) (qs : List SyncQuery)
      → All P a.sent
      → All P qs
      → All P (apply_loop reachable exec really a qs).sent
  unfolding apply_loop append
  apply_loop-All P really a [] h k = h
  apply_loop-All P really a (q ∷ qs) h k =
      let counted = record a { count = suc a.count } in
      let (errors, more) = append a.errors (exec q) in
      let tried = record counted { sent = a.sent ++ q ∷ []; errors = errors } in
      let all : All P tried.sent = All-append P a.sent (q ∷ []) h (k.0, tt) in
      elim (Bool-cases (reachable q.database)) [
        | inr down ↦ rw down h
        | inl up ↦ elim (Bool-cases really) [
          | inr dry ↦ rw (up, dry) (apply_loop-All P really counted qs h k.1)
          | inl real ↦ elim (Bool-cases more) [
            | inl on ↦ rw (up, real, on) (apply_loop-All P really tried qs all k.1)
            | inr full ↦ rw (up, real, full) all
          ]
        ]
      ]

  pub dry_loop :
      (a : Applied) (qs : List SyncQuery) → (apply_loop reachable exec false a qs).sent ≡ a.sent
  unfolding apply_loop
  dry_loop a [] = refl
  dry_loop a (q ∷ qs) = elim (Bool-cases (reachable q.database)) [
    | inl up ↦ rw up (dry_loop (record a { count = suc a.count }) qs)
    | inr down ↦ rw down refl
  ]

-- The grants, if they were inspected, satisfy the predicate.
abbrev OnGrants : (Grant → Type 0) → Outcome (List Grant) → Type 0
OnGrants P (ok gs) = All P gs
OnGrants P _ = Unit

abbrev Relevant : (S : SetOps String) → S.Carrier → Grant → Type 0
Relevant S roles = IsManaged S roles

All-Unit : (gs : List Grant) → All (λ g. Unit {0}) gs
All-Unit [] = tt
All-Unit (g ∷ gs) = (tt, All-Unit gs)

OnGrants-Settles :
    (S : SetOps String) (roles : S.Carrier) (sight : Sight) (o : Outcome (List Grant))
    → Settles sight o (All (λ g. Unit {0} × IsManaged S roles g))
    → OnGrants (Relevant S roles) o
OnGrants-Settles S roles sight (ok gs) h =
    All-map (λ g. Unit {0} × IsManaged S roles g) (Relevant S roles) gs (λ g p. p.1) h
OnGrants-Settles S roles sight (error e) h = tt
OnGrants-Settles S roles sight panic h = tt
OnGrants-Settles S roles sight spent h = tt

inspect-Relevant :
    (S : SetOps String) (acls : Acls) (managed : Managed) (databases : DbMap) (database : Database)
    (name : String) (roles : S.Carrier) (connect : String → Option String)
    (answer : String → List String → Answer (Outcome Row)) (sight : Sight)
    → OnGrants
        (Relevant S roles)
        (inspect S acls managed databases database name roles connect answer sight)
unfolding inspect
inspect-Relevant S acls managed databases database name roles connect answer sight =
    go (iter_grants acls managed databases database name connect answer)
  where
    go :
        (o : Outcome (List Grant × Option String))
        → OnGrants (Relevant S roles) (o >>= λ out. receive S roles sight out.0 out.1)
    go (ok (gs, e)) =
        OnGrants-Settles S roles sight (receive S roles sight gs e)
          (receive_settles S roles (λ g. Unit {0}) sight gs e (All-Unit gs))
    go (error e) = tt
    go panic = tt
    go spent = tt

-- A grant to a managed role, of a managed owner if it has one.
abbrev pub IsOurs : (S : SetOps String) → S.Carrier → Grant → Type 0
IsOurs S roles g = (S.has roles g.grantee ≡ true) × ((g.owner == "" || S.has roles g.owner) ≡ true)

-- The query revokes a grant that the instance has to a managed role, or it grants what the rules
-- want of an ACL.
abbrev pub IsJustified :
    (S : SetOps String) → Acls → S.Carrier → Dict (List Grant) → SyncQuery → Type 0
IsJustified S acls roles wanted q =
    (acl : String) × ComesFrom acls (IsOurs S roles) (get_or wanted acl []) q

Relevant-IsOurs :
    (S : SetOps String) (roles : S.Carrier) (g : Grant)
    → (g.type == "") ≡ false
    → Relevant S roles g
    → IsOurs S roles g
Relevant-IsOurs S roles g t r = (ground arith, ground arith)

ours :
    (S : SetOps String) (acls : Acls) (roles : S.Carrier) (wanted : List Grant) (q : SyncQuery)
    → ComesFrom acls (Relevant S roles) wanted q
    → ComesFrom acls (IsOurs S roles) wanted q
ours S acls roles wanted q (inl (g, e, t, r)) = inl (g, e, t, Relevant-IsOurs S roles g t r)
ours S acls roles wanted q (inr granted) = inr granted

module _ (S : SetOps String) (G : SetOps Grant) (server : Server) (exec : SyncQuery → Option Error)
    (acls : Acls) (managed : Managed)
    (rows_of : String → String → List String → Answer (Outcome Row))
    (sight_of : String → String → Sight) where
  module _ (really : Bool) (roles : S.Carrier) (wanted : Dict (List Grant)) where
    abbrev Justified : SyncQuery → Type 0
    Justified = IsJustified S acls roles wanted

    after_sync-All :
        (qs : Option (List SyncQuery))
        → ((out : List SyncQuery) → qs ≡ some out → All Justified out)
        → All Justified (after_sync S G server exec really acls managed rows_of sight_of qs).sent
    unfolding apply
    after_sync-All none h = tt
    after_sync-All (some qs) h =
        apply_loop-All (reaches server) exec Justified really initial qs tt (h qs refl)

    after_inspect-All :
        (databases : DbMap) (dbname acl : String) (o : Outcome (List Grant))
        → OnGrants (Relevant S roles) o
        → All Justified
            (after_inspect S G server exec really acls managed rows_of sight_of databases dbname
              (get_or wanted acl [])
              o).sent
    after_inspect-All databases dbname acl (ok current) h =
        after_sync-All (sync G S acls databases dbname current (get_or wanted acl [])) (λ qs e.
          All-map (ComesFrom acls (Relevant S roles) (get_or wanted acl [])) Justified qs
            (λ q c. (acl, ours S acls roles (get_or wanted acl []) q c))
            (sync-ComesFrom S G acls (Relevant S roles) databases dbname current
              (get_or wanted acl []) qs h e))
    after_inspect-All databases dbname acl (error x) h = tt
    after_inspect-All databases dbname acl panic h = tt
    after_inspect-All databases dbname acl spent h = tt

    sync_acl-All :
        (databases : DbMap) (dbname acl : String)
        → All Justified
            (sync_acl S G server exec really acls managed rows_of sight_of roles wanted databases
              dbname acl).sent
    unfolding sync_acl
    sync_acl-All databases dbname acl = after_inspect-All databases dbname acl _ (
        inspect-Relevant S acls managed databases (get_or databases dbname zero_database) acl roles
          server.connect (rows_of dbname) (sight_of dbname acl))

  -- However the run ends, it has sent queries for roles that `Apply` sends of those planned, and
  -- behind them only queries that each revoke a grant with a type, to a role of the effective set of
  -- managed roles and of an owner of this set or of none, or that grant a privilege with the
  -- grantee, the type and the ACL of a grant that the rules want.
  pub sync_run-IsJustified :
      (really : Bool) (fuel : ℕ) (pc : Config) (profiles : Profiles) (p : Plan S)
      → (let r = sync_run S G server exec really acls managed rows_of sight_of fuel pc profiles p in
          let roles = effective_roles S p.wants.roles p.instance'.managed_roles in
          (rest : List SyncQuery) × (r.sent
            ≡ (apply (reaches server) exec really p.queries).sent ++ rest)
          × All (IsJustified S acls roles p.wants.grants) rest)
  unfolding sync_roles
  sync_run-IsJustified really fuel pc profiles p =
      let roles = effective_roles S p.wants.roles p.instance'.managed_roles in
      sync_run-Extends S G server exec really acls managed rows_of sight_of
        (IsJustified S acls roles p.wants.grants) fuel pc profiles p
        (sync_acl-All really roles p.wants.grants)

  none-[] : (qs : List SyncQuery) → All (λ q. ⊥) qs → qs ≡ []
  none-[] [] h = refl
  none-[] (q ∷ qs) h = absurd h.0

  dry_sync-All :
      (qs : Option (List SyncQuery))
      → All (λ q. ⊥) (after_sync S G server exec false acls managed rows_of sight_of qs).sent
  unfolding apply
  dry_sync-All none = tt
  dry_sync-All (some qs) = rw (dry_loop (reaches server) exec initial qs) tt

  dry_inspect-All :
      (databases : DbMap) (dbname : String) (wanted : List Grant) (o : Outcome (List Grant))
      → All
          (λ q. ⊥)
          (after_inspect S G server exec false acls managed rows_of sight_of databases dbname wanted
            o).sent
  dry_inspect-All databases dbname wanted (ok current) = dry_sync-All _
  dry_inspect-All databases dbname wanted (error x) = tt
  dry_inspect-All databases dbname wanted panic = tt
  dry_inspect-All databases dbname wanted spent = tt

  -- Without `--real`, a run sends no query, neither for roles nor for privileges, however it ends,
  -- databases that cannot be reached included.
  pub sync_run_dry :
      (fuel : ℕ) (pc : Config) (profiles : Profiles) (p : Plan S)
      → (sync_run S G server exec false acls managed rows_of sight_of fuel pc profiles p).sent ≡ []
  unfolding sync_roles sync_acl apply
  sync_run_dry fuel pc profiles p =
      let (rest, e, none_of) =
        sync_run-Extends S G server exec false acls managed rows_of sight_of (λ q. ⊥) fuel pc
          profiles p (λ m dbname acl. dry_inspect-All m dbname _ _) in
      e
      ∙ ap (λ x. x ++ rest) (dry_loop (reaches server) exec initial p.queries)
      ∙ none-[] rest none_of
