-- ===== src/Privileges/Rule.antt =====
-- internal/privileges/rule.go: the grants that a rule yields for a search result.
use ldap2pg.Common.{
  ℕ, String, Bool, false, not, ◌||◌, List, [], ◌∷◌, ◌++◌, Option, none, some, ◌>>=◌,
}
use ldap2pg.Common.{◌==◌, string_eq, if◌then◌else◌}
use ldap2pg.Common.Dict.{Dict, get_or}
use ldap2pg.Common.Sets.{SetOps}
use ldap2pg.Lists
use ldap2pg.Ldap.{Strings, Result, generate_values}
use ldap2pg.Pyfmt.{Format, is_static, format}
use ldap2pg.Privileges.{Acls, zero_acl, uses, Privilege, Grant}

pub record GrantRule : Type 0 where
  pub owner : Format
  pub privilege : Format
  pub database : Format
  pub schema : Format
  pub to : Format

abbrev pub formats : GrantRule → List Format
formats r = r.owner ∷ r.privilege ∷ r.database ∷ r.schema ∷ r.to ∷ []

unfoldable pub rule_is_static : GrantRule → Bool
unfolding Lists.every
rule_is_static r = Lists.every (formats r) is_static

module _ (L : Strings) (S : SetOps String) (acls : Acls) (profiles : Dict (List Privilege)) where
  -- A field that the ACL does not use stays empty.
  abbrev optional : Bool → Format → Option (Dict String) → Option String
  optional used f values = if used then format L.lower L.upper f values else some ""

  unfoldable pub make_grant : GrantRule → Option (Dict String) → Privilege → Option Grant
  unfolding format uses
  make_grant r values priv =
      let acl = get_or acls priv.on zero_acl in
      format L.lower L.upper r.to values >>= λ grantee.
      optional (uses acl "owner") r.owner values >>= λ owner.
      optional (uses acl "schema") r.schema values >>= λ schema.
      optional (not (acl.scope == "instance") || uses acl "database") r.database values
      >>= λ database. some (record {
        owner = owner;
        grantee = grantee;
        acl = priv.on;
        type = priv.type;
        database = database;
        schema = schema;
        object = if uses acl "object" then priv.object else "";
        partial = false;
      })

  unfoldable pub grant_privileges :
      GrantRule → Option (Dict String) → List Privilege → Option (List Grant)
  unfolding make_grant
  grant_privileges r values [] = some []
  grant_privileges r values (priv ∷ privs) =
      make_grant r values priv >>= λ g. grant_privileges r values privs >>= λ gs. some (g ∷ gs)

  unfoldable pub grant_values : GrantRule → List (Option (Dict String)) → Option (List Grant)
  unfolding grant_privileges format
  grant_values r [] = some []
  grant_values r (values ∷ more) = format L.lower L.upper r.privilege values >>= λ profile.
      grant_privileges r values (get_or profiles profile []) >>= λ gs.
      grant_values r more >>= λ rest. some (gs ++ rest)

  abbrev given : List (Dict String) → List (Option (Dict String))
  given [] = []
  given (v ∷ vs) = some v ∷ given vs

  -- `Generate`; `none` is a panic, or fuel that is spent.
  unfoldable pub generate_grants : ℕ → List String → GrantRule → Result → Option (List Grant)
  unfolding grant_values generate_values
  generate_grants fuel known_rdns r results = elim results.entry [
    | none ↦ grant_values r (none ∷ [])
    | some _ ↦ generate_values L S fuel known_rdns results (formats r) >>= λ all.
        grant_values r (given all)
  ]
