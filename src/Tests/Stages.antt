-- ===== src/Tests/Stages.antt =====
-- A run that synchronises the privileges of a small instance.
use ldap2pg.Common.{String, ◌≡◌, refl, true, false, List, [], ◌∷◌, ◌++◌, Option, none}
use ldap2pg.Common.{All, map, string_eq}
use ldap2pg.Common.Sort.{sort}
use ldap2pg.Common.Outcome.{Outcome, ok}
use ldap2pg.Common.Sets.{list_set}
use ldap2pg.ErrorList.{Error}
use ldap2pg.Inspect.{Config, Server, one}
use ldap2pg.Inspect.Rows.{Answer, rows, yaml_query}
use ldap2pg.Postgres.{SyncQuery}
use ldap2pg.Postgres.Apply.{apply}
use ldap2pg.Privileges.{Grant, grant_eq, expand}
use ldap2pg.Privileges.Inspection.{Row, Sight, by_err}
use ldap2pg.Privileges.Registry.{Profiles}
use ldap2pg.Tests.Current.{acls, app, answer, managed}
use ldap2pg.Tests.Instances.{server, config, blank, wants, no_columns}
use ldap2pg.Cmd.{Plan}
use ldap2pg.Cmd.Grants.{reaches, effective_roles, sync_run, exit_of, code}
use ldap2pg.Cmd.Grants.Justified.{IsJustified, sync_run-IsJustified, sync_run_dry}

abbrev to_bob : Grant
to_bob = record {
  owner = "";
  grantee = "bob";
  acl = "SCHEMA";
  type = "USAGE";
  database = "__all__";
  schema = "public";
  object = "";
  partial = false;
}

abbrev plan : Plan list_set
plan = record {
  instance' = blank;
  columns = no_columns;
  databases = ("app", app) ∷ [];
  wants = record wants { grants = ("SCHEMA", to_bob ∷ []) ∷ [] };
  queries = [];
}

abbrev public_only : Config
public_only = record config {
  schemas_query = yaml_query (record { name = "public"; owner = ""; creators = [] } ∷ []);
}

abbrev with_public : Server
with_public = record server { schemas = λ name. rows (one (ok "public") ∷ []) none }

abbrev succeeds : SyncQuery → Option Error
succeeds q = none

abbrev rows_of : String → String → List String → Answer (Outcome Row)
rows_of name = answer

abbrev sight_of : String → String → Sight
sight_of name acl = by_err

abbrev profiles : Profiles
profiles = ("reader", record { type = "USAGE"; on = "SCHEMA"; object = "" } ∷ []) ∷ []

one_revoked_one_granted :
    map
      (λ (q : SyncQuery). q.description)
      (sync_run list_set list_set with_public succeeds true acls managed rows_of sight_of 5
        public_only profiles plan).sent
    ≡ "Revoke privileges." ∷ "Grant privileges." ∷ []
unfolding sync_run string_eq grant_eq expand sort
one_revoked_one_granted = refl

checked_dry :
    exit_of true (
      sync_run list_set list_set with_public succeeds false acls managed rows_of sight_of 5
        public_only profiles plan)
    ≡ ok (code 1)
unfolding exit_of sync_run string_eq grant_eq expand sort
checked_dry = refl

sync_run-IsJustified_example :
    (let r =
        sync_run list_set list_set with_public succeeds true acls managed rows_of sight_of 5
          public_only profiles plan in
      let roles = effective_roles list_set plan.wants.roles plan.instance'.managed_roles in
      (rest : List SyncQuery) × (r.sent
        ≡ (apply (reaches with_public) succeeds true plan.queries).sent ++ rest)
      × All (IsJustified list_set acls roles plan.wants.grants) rest)
sync_run-IsJustified_example =
    sync_run-IsJustified list_set list_set with_public succeeds acls managed rows_of sight_of true 5
      public_only profiles plan

sync_run_dry_example :
    (sync_run list_set list_set with_public succeeds false acls managed rows_of sight_of 5
      public_only profiles plan).sent
    ≡ []
sync_run_dry_example =
    sync_run_dry list_set list_set with_public succeeds acls managed rows_of sight_of 5 public_only
      profiles plan
