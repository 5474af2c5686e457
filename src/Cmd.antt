-- ===== src/Cmd.antt =====
-- internal/cmd/ldap2pg.go: how the run of the program strings its stages together, up to the
-- queries that synchronise roles.
pub mod Spared
pub mod Grants
use ldap2pg.Common.{ℕ, String, Bool, List, [], ◌∷◌, Option, none, some}
use ldap2pg.Common.Outcome.{Outcome, ok, error, panic, spent, ◌>>=◌, ◌>>◌, or_panic}
use ldap2pg.Common.Sets.{SetOps}
use ldap2pg.Inspect.{Instance, Config, Server}
use ldap2pg.Inspect.Stage0.{stage0}
use ldap2pg.Inspect.Stage1.{stage1}
use ldap2pg.Postgres.{SyncQuery, DbMap, group_by_database}
use ldap2pg.Role.Diff.{diff}
use ldap2pg.Role.RoleOptions.{Columns}
use ldap2pg.Wanted.Run.{Wants, RunError}

-- What is known when the queries for roles are sent to `Apply`.
pub record Plan (S : SetOps String) : Type 0 where
  pub instance' : Instance S
  pub columns : Columns
  pub databases : DbMap
  pub wants : Wants
  pub queries : List SyncQuery

-- The errors that `Run` joins end the program; their text is left out.
abbrev pub or_joined : List RunError → Outcome (Unit {0})
or_joined [] = ok tt
or_joined (_ ∷ _) = error "run"

module _ (S : SetOps String) (match : String → String → Option Bool) (fuel check_fuel : ℕ)
    (global : Columns) (server : Server) (pc : Config) (rules : List String → Option Wants) where
  -- `ldap2pg`, from the inspection to the queries for roles. `rules` is `conf.Rules.Run`. The
  -- databases are ordered by their names, which dropping a role leaves as they are.
  unfoldable pub plan_roles : Outcome (Plan S)
  unfolding stage0 stage1 diff group_by_database
  plan_roles = do
    session ← stage0 S match fuel server pc
    wants ← or_panic (rules session.roles_blacklist)
    or_joined wants.errors
    (instance', columns, databases) ← stage1 S match fuel global server pc session
    (queries, databases') ← or_panic (
        diff S columns instance'.all_roles wants.roles instance'.fallback_owner check_fuel
          instance'.managed_roles databases)
    grouped ← or_panic (group_by_database databases instance'.default_database queries)
    ok (record {
      instance' = instance';
      columns = columns;
      databases = databases';
      wants = wants;
      queries = grouped;
    })
