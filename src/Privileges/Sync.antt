-- ===== src/Privileges/Sync.antt =====
-- internal/privileges/sync.go: the queries that lead from the current grants to those wanted.
pub mod Performed
pub mod Converge
pub mod Origin
use ldap2pg.Common.{String, ◌≡◌, Bool, true, false, not, ◌&&◌, ◌||◌, List, [], ◌∷◌, ◌++◌}
use ldap2pg.Common.{Option, none, some, ◌>>=◌, ◌==◌, string_eq, if◌then◌else◌, keep, map}
use ldap2pg.Common.Dict.{get_or}
use ldap2pg.Common.Sets.{SetOps}
use ldap2pg.Postgres.{SyncQuery, Database, DbMap, zero_database}
use ldap2pg.Privileges.{Grant, Acls, zero_acl, expand}
use ldap2pg.Privileges.Format.{format_query}

abbrev pub full : Grant → Grant
full g = record g { partial = false }

-- `GRANT ... ON ALL ... IN SCHEMA` is irrelevant where the instance has this entry.
abbrev pub wildcard : Grant → Grant
wildcard g = record g { grantee = "public"; type = "" }

abbrev pub revoke_query : Acls → Grant → SyncQuery
revoke_query acls g = record (format_query g (get_or acls g.acl zero_acl).revoke) {
  description = "Revoke privileges.";
  database = g.database;
}

abbrev pub grant_query : Acls → Grant → SyncQuery
grant_query acls g = record (format_query g (get_or acls g.acl zero_acl).grant) {
  description = "Grant privileges.";
  database = g.database;
}

module _ (G : SetOps Grant) where
  -- The grants that the first loop revokes.
  unfoldable pub revoked : List Grant → List Grant → List Grant
  revoked current wanted =
      let wanted_set = G.new_set wanted in
      keep (λ g. not (G.has wanted_set (full g) || g.type == "")) current

  -- The grants that the second loop grants.
  unfoldable pub granted : List Grant → List Grant → List Grant
  granted current wanted =
      let current_set = G.new_set current in
      keep (λ g. not (G.has current_set g) && not (G.has current_set (wildcard g))) wanted

  unfoldable pub diff : Acls → List Grant → List Grant → List SyncQuery
  unfolding revoked granted
  diff acls current wanted =
      map (revoke_query acls) (revoked current wanted)
      ++ map (grant_query acls) (granted current wanted)

  -- `Sync`, up to the call of `Apply`.
  unfoldable pub sync :
      SetOps String → Acls → DbMap → String → List Grant → List Grant → Option (List SyncQuery)
  unfolding diff
  sync S acls databases dbname current wanted =
      expand S acls databases wanted (get_or databases dbname zero_database) >>= λ expanded.
      some (diff acls current expanded)
