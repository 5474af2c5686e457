-- ===== src/Cmd/Spared.antt =====
-- Which roles a whole run creates and drops.
use ldap2pg.Common.{
  ℕ, String, ◌≡◌, refl, sym, ◌∙◌, ap, subst, inl, inr, Bool, true, false, not, ◌&&◌, List, [], ◌∷◌,
}
use ldap2pg.Common.{
  Option, none, some, string_eq, contains, ltb, Option-cases, All, All-map, All-keep, All-both,
  All-collect, All-collect_parts, map,
}
use ldap2pg.Common.Dict.{lookup, keys, contains-keys, All-lookup, All-keys}
use ldap2pg.Common.Outcome.{ok}
use ldap2pg.Common.Sets.{SetOps, IsLawful}
use ldap2pg.Lists.Blacklist.{IsStrict, check}
use ldap2pg.Postgres.{SyncQuery, Database, DbMap, group_by_database}
use ldap2pg.Postgres.Sent.{group_by_database-All}
use ldap2pg.Role.{Role}
use ldap2pg.Role.Diff.{diff}
use ldap2pg.Role.Diff.Queries.{named, created, dropped}
use ldap2pg.Role.Diff.Plan.{diff_plan, spurious, missing}
use ldap2pg.Role.Map.{RoleMap}
use ldap2pg.Role.Map.Order.{InMap}
use ldap2pg.Role.RoleOptions.{Columns, process_columns}
use ldap2pg.Inspect.{Instance, Config, Session, Server, row_to_database}
use ldap2pg.Inspect.Rows.{Querier, rows, sql_query, read}
use ldap2pg.Inspect.Stage0.{blacklist_self, stage0}
use ldap2pg.Inspect.Stage0.Blacklisted.{Blacklists, started, stage0_lem}
use ldap2pg.Inspect.Stage1.{row_to_role, add_all, stage1}
use ldap2pg.Inspect.Stage1.Databases.{inspect_managed_databases_lem}
use ldap2pg.Inspect.Stage1.Roles.{allowed, IsFound, IsManaged, Manages, Yields, inspect_roles_lem}
use ldap2pg.Wanted.Run.{Wants, Yield, run}
use ldap2pg.Wanted.Run.Accepted.{run-eq-some}
use ldap2pg.Wanted.Run.Keyed.{IsWanted}
use ldap2pg.Cmd.{Plan, or_joined, plan_roles}

-- A server that answers every query of the inspection to its end, for a user who may run it.
pub record IsReadable (match : String → String → Option Bool) (fuel : ℕ) (global : Columns)
    (server : Server) (pc : Config) (s : Session) (patterns : List String) : Type 0 where
  pub names : List String
  pub databases : List Database
  pub columns : List String
  pub roles : List Role
  pub managed : List String
  pub reached : server.connect "" ≡ none
  pub session : server.session ≡ rows (ok s ∷ []) none
  pub entitled : (not s.super && ltb s.server_version_num 160000) ≡ false
  pub patterns_read : read pc.roles_blacklist_query fuel ≡ ok (patterns, none)
  pub valid : check match (blacklist_self s.user patterns) ≡ true
  pub names_read : read pc.databases_query fuel ≡ ok (names, none)
  pub databases_read : read (sql_query row_to_database server.databases) fuel ≡ ok (databases, none)
  pub default_managed :
      (contains (map (λ (d : Database). d.name) databases) s.database && contains names s.database)
      ≡ true
  pub columns_read : read (sql_query (λ row. row) server.role_columns) fuel ≡ ok (columns, none)
  pub roles_read :
      (let processed = process_columns global columns s.super in
        read (sql_query (row_to_role processed) (server.roles processed.order)) fuel)
      ≡ ok (roles, none)
  pub managed_read : Yields fuel pc.managed_roles_query managed

-- Every name that a query creates or drops a role under.
abbrev Spares {κ} : (String → Type κ) → SyncQuery → Type κ
Spares P q = All P (named "Create role." q) × All P (named "Drop role." q)

module _ (S : SetOps String) (L : IsLawful S) (match : String → String → Option Bool)
    (strict : IsStrict match) where
  -- The stages one behind the other.
  plan_roles-eq-ok :
      (fuel check_fuel : ℕ) (global columns : Columns) (server : Server) (pc : Config)
      (rules : List String → Option Wants) (i done : Instance S) (w : Wants) (m databases : DbMap)
      (queries grouped : List SyncQuery)
      → stage0 S match fuel server pc ≡ ok i
      → rules i.roles_blacklist ≡ some w
      → or_joined w.errors ≡ ok tt
      → stage1 S match fuel global server pc i ≡ ok (done, columns, m)
      → diff S columns done.all_roles w.roles done.fallback_owner check_fuel done.managed_roles m
        ≡ some (queries, databases)
      → group_by_database m done.default_database queries ≡ some grouped
      → plan_roles S match fuel check_fuel global server pc rules
        ≡ ok (record {
          instance' = done;
          columns = columns;
          databases = databases;
          wants = w;
          queries = grouped;
        })
  unfolding plan_roles
  plan_roles-eq-ok fuel check_fuel global columns server pc rules i done w m databases queries
        grouped a b c d e f =
      rw (a, b, c, d, e, f) refl

  abbrev pub Allowed : List String → String → Type 0
  Allowed bl n = allowed match bl n ≡ true

  Allowed-InMap :
      (bl : List String) (wanted : RoleMap)
      → All (IsWanted match bl) wanted
      → (n : String) → InMap wanted n
      → Allowed bl n
  unfolding string_eq
  Allowed-InMap bl wanted h n i = elim (Option-cases (lookup n wanted)) [
    | inl absent ↦ cc (rw absent at i)
    | inr (r, found) ↦ rw ((All-lookup (IsWanted match bl) n r wanted h found).2, allowed) refl
  ]

  Allowed-managed :
      (bl : List String) (q : Option (Querier String)) (ns : List String) (all managed : RoleMap)
      → All (IsFound match bl) all
      → Manages match bl q ns all managed
      → All (Allowed bl) (keys managed)
  Allowed-managed bl none ns all managed h m =
      subst (λ x. All (Allowed bl) (keys x)) (sym m)
        (All-keys (IsFound match bl) (Allowed bl) all (λ k r p. p.1) h)
  Allowed-managed bl (some q) ns all managed h (u, k, g) =
      All-keys (IsManaged match bl all) (Allowed bl) managed (λ k r p. p.1) k

  module _ (fuel check_fuel : ℕ) (global : Columns) (server : Server) (pc : Config) (s : Session)
      (patterns : List String) (ok_server : IsReadable match fuel global server pc s patterns) where
    abbrev blacklist : List String
    blacklist = blacklist_self s.user patterns

    -- For a server whose answers to the inspection are all read to their end, for an entitled user
    -- connected to a managed database, with a blacklist that `Check` accepts, where no error of
    -- `filepath.Match` depends on the name that is matched: once the rules have run with no error,
    -- the program comes to the queries for roles. Whatever the rules want and whatever the instance
    -- holds, no role that these queries create or drop matches the blacklist, which holds the
    -- patterns read and the running user, and nothing else.
    pub plan_roles-Allowed :
        (rules : List String → Option Wants) (ys : List Yield) (w : Wants)
        → rules blacklist ≡ run match blacklist check_fuel ys
        → run match blacklist check_fuel ys ≡ some w
        → w.errors ≡ []
        → (p : Plan S) × (plan_roles S match fuel check_fuel global server pc rules ≡ ok p)
          × (p.wants ≡ w)
          × All (Allowed blacklist) (created p.queries)
          × All (Allowed blacklist) (dropped p.queries)
          × Blacklists s.user patterns blacklist
    unfolding stage1
    plan_roles-Allowed rules ys w searched ran clean =
        let R = ok_server in
        let (listed, e0) =
          stage0_lem S match fuel server pc s none patterns none R.reached R.session
            R.patterns_read in
        let begun = started S s pc.fallback_owner blacklist in
        let e0' : stage0 S match fuel server pc ≡ ok begun = e0 ∙ rw (R.entitled, R.valid) refl in
        let (ok_wanted, all_wanted, accepted) =
          run-eq-some match strict blacklist R.valid check_fuel ys ran clean in
        let (m, u, keyed, known, e1) =
          inspect_managed_databases_lem S L fuel server begun pc.databases_query R.names R.databases
            (λ k. L.has-new_set [] k) R.names_read R.databases_read in
        let here : contains (keys m) s.database ≡ true = known s.database ∙ R.default_managed in
        let with_databases = record begun {
          managed_databases = add_all S (S.new_set []) R.names;
        } in
        let (all, managed, e2, (ok_all, found, adds, manages)) =
          inspect_roles_lem S match strict fuel global server with_databases pc.managed_roles_query
            R.columns R.roles R.managed R.valid R.columns_read R.roles_read R.managed_read in
        let processed = process_columns global R.columns s.super in
        let done = record with_databases { all_roles = all; managed_roles = managed } in
        let e3 : stage1 S match fuel global server pc begun ≡ ok (done, processed, m) =
          rw (R.reached, e1, here, e2) refl in
        let (names, queries, databases, e4, _, _, within, creates, drops) =
          diff_plan S processed all w.roles begun.fallback_owner ok_all ok_wanted L check_fuel
            managed m accepted in
        let fine : All (Allowed blacklist) (created queries) =
          subst (All (Allowed blacklist)) (sym creates) (
            All-keep (Allowed blacklist) (missing all) names (
              All-map (InMap w.roles) (Allowed blacklist) names
                (Allowed-InMap blacklist w.roles all_wanted) within)) in
        let fine' : All (Allowed blacklist) (dropped queries) =
          subst (All (Allowed blacklist)) (sym drops) (
            All-keep (Allowed blacklist) (spurious all w.roles) (keys managed) (
              Allowed-managed blacklist pc.managed_roles_query R.managed all managed found
                manages)) in
        let (grouped, e5, spared) =
          group_by_database-All (Spares (Allowed blacklist)) (λ q n h. h) m s.database queries
            (sym (contains-keys m s.database) ∙ here)
            (All-both _ _ queries
              (All-collect_parts (Allowed blacklist) (named "Create role.") queries fine)
              (All-collect_parts (Allowed blacklist) (named "Drop role.") queries fine')) in
        (
          record {
            instance' = done;
            columns = processed;
            databases = databases;
            wants = w;
            queries = grouped;
          },
          plan_roles-eq-ok fuel check_fuel global processed server pc rules begun done w m databases
              queries grouped e0' (searched ∙ ran) (ap or_joined clean) e3 e4 e5,
          refl,
          All-collect (Spares (Allowed blacklist)) (Allowed blacklist) (named "Create role.")
              grouped (λ q h. h.0) spared,
          All-collect (Spares (Allowed blacklist)) (Allowed blacklist) (named "Drop role.") grouped
              (λ q h. h.1) spared,
          listed,
        )
