-- ===== src/Inspect/Stage0.antt =====
-- internal/inspect/stage0.go: the session, and the blacklist of role names.
pub mod Blacklisted
use ldap2pg.Common.{ℕ, String, ◌<>◌, Bool, true, false, List, [], ◌∷◌, ◌++◌, Option, none, some}
use ldap2pg.Common.{◌==◌, string_eq, if◌then◌else◌, contains, ltb}
use ldap2pg.Common.Outcome.{Outcome, ok, error, panic, ◌>>=◌, ◌>>◌, or_return, wrap}
use ldap2pg.Common.Sets.{SetOps}
use ldap2pg.Lists.Blacklist.{check}
use ldap2pg.Role.Diff.{zero_role}
use ldap2pg.Role.RoleOptions.{zero_options}
use ldap2pg.Inspect.{Instance, Config, Session, Server}
use ldap2pg.Inspect.Rows.{Answer, refused, rows, read}

-- `Blacklisting self.`
unfoldable pub blacklist_self : String → List String → List String
blacklist_self me patterns = if contains patterns me then patterns else patterns ++ me ∷ []

module _ (S : SetOps String) where
  -- `Instance{}`; the nil set of databases is made in stage 1.
  abbrev pub zero_instance : Instance S
  zero_instance = record {
    all_roles = [];
    default_database = "";
    fallback_owner = "";
    managed_databases = S.new_set [];
    managed_roles = [];
    me = zero_role;
    roles_blacklist = [];
  }

  -- The row of the session, and whether another follows it.
  unfoldable pub load_session : String → Session → Bool → Outcome (Instance S)
  load_session fallback_owner s more =
      let me = record zero_role {
        name = s.user;
        options = record zero_options { super = s.super };
      } in
      let loaded = record zero_instance {
        default_database = s.database;
        me = me;
        fallback_owner = if fallback_owner == "" then s.user else fallback_owner;
      } in
      let single : Outcome (Instance S) = if more then panic else ok loaded in
      if s.super
      then single
      else if ltb s.server_version_num 160000
      then error "unprivileged user on pre-16 Postgres"
      else single

  unfoldable pub inspect_session : Server → String → Outcome (Instance S)
  unfolding load_session
  inspect_session server fallback_owner = or_return (server.connect "") >> elim server.session [
    | refused e ↦ error e
    | rows [] e ↦ panic
    | rows (row ∷ more) e ↦
        row >>= λ s. load_session fallback_owner s (elim more [ [] ↦ false | _ ∷ _ ↦ true ])
  ]

  -- `Stage0`; the text of `ErrBadPattern` is that of `path/filepath`.
  unfoldable pub stage0 :
      (String → String → Option Bool) → ℕ → Server → Config → Outcome (Instance S)
  unfolding inspect_session blacklist_self check read
  stage0 match fuel server pc = do
    instance' ← wrap "session: " (inspect_session server pc.fallback_owner)
    or_return (server.connect "")
    (patterns, e) ← read pc.roles_blacklist_query fuel
    wrap "roles_blacklist_query: " (or_return e)
    let blacklist = blacklist_self instance'.me.name patterns
    (if check match blacklist
        then ok (record instance' { roles_blacklist = blacklist })
        else error "roles_blacklist_query: syntax error in pattern")
