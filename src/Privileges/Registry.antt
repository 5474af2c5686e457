-- ===== src/Privileges/Registry.antt =====
-- The registries of internal/privileges: ACLs (acl.go) and profiles (profile.go), with the
-- registration of a configuration (internal/config/privilege.go).
use ldap2pg.Common.{String, ◌<>◌, false, List, [], ◌∷◌, ◌++◌, Option, none, some}
use ldap2pg.Common.{◌==◌, string_eq, if◌then◌else◌}
use ldap2pg.Common.Dict.{Dict, lookup, get_or, insert}
use ldap2pg.Common.Outcome.{Outcome, ok, error, panic, ◌>>=◌, wrap}
use ldap2pg.Postgres.{is_zero}
use ldap2pg.Privileges.{Acl, Acls, zero_acl, uses, Privilege, Grant}
use ldap2pg.Privileges.Format.{format_query}

-- The functions that `Register` sets `rowTo` to.
pub data RowTo : Type 0 where
  global_default : RowTo
  schema_default : RowTo
  instance_grant : RowTo
  database_grant : RowTo

-- The `switch` of `Register`; `none` is the unknown scope.
unfoldable pub row_to : Acl → Option RowTo
row_to a =
    if a.name == "GLOBAL DEFAULT"
    then some global_default
    else if a.name == "SCHEMA DEFAULT"
    then some schema_default
    else if a.scope == "instance"
    then some instance_grant
    else if a.scope == "database"
    then some database_grant
    else none

abbrev sample : Acl → Grant
sample a = record {
  owner = "_owner_";
  grantee = "_grantee_";
  acl = a.name;
  type = "PRIV";
  database = "_database_";
  schema = "_schema_";
  object = "_object_";
  partial = false;
}

-- `Register`; the error leaves out what `%q` prints.
unfoldable pub register : Acls → Acl → Outcome Acls
unfolding row_to format_query insert is_zero
register acls a = elim (row_to a) [
  | none ↦ error "unknown scope"
  | some _ ↦
      if is_zero (format_query (sample a) a.grant)
      then error "grant query is invalid"
      else if is_zero (format_query (sample a) a.revoke)
      then error "revoke query is invalid"
      else ok (insert a.name a acls)
]

-- `MustRegister`
unfoldable pub must_register : Acls → Acl → Outcome Acls
unfolding register
must_register acls a = elim (register acls a) [ ok acls' ↦ ok acls' | _ ↦ panic ]

-- `managedACLs`: the types that are managed of an ACL.
abbrev pub Managed : Type 0
Managed = Dict (List String)

-- What `Register` of a profile returns beside the registries: whether an ACL was not found.
abbrev pub type_of : Acl → Privilege → String
type_of a p = if uses a "owner" then p.type <> " ON " <> p.object else p.type

unfoldable pub register_privileges :
    Acls → List Privilege → Managed → List String → Managed × List String
unfolding insert
register_privileges acls [] m errors = (m, errors)
register_privileges acls (p ∷ ps) m errors = elim (lookup p.on acls) [
  | none ↦ register_privileges acls ps m (errors ++ ("ACL " <> p.on <> " not found") ∷ [])
  | some a ↦
      register_privileges acls ps (insert p.on (get_or m p.on [] ++ type_of a p ∷ []) m) errors
]

abbrev pub Profiles : Type 0
Profiles = Dict (List Privilege)

-- `Profile.Register`: the registries, and the errors that are joined.
unfoldable pub register_profile :
    Acls → String → List Privilege → Managed → Profiles → Managed × Profiles × List String
unfolding register_privileges insert
register_profile acls name p m profiles =
    let (m', errors) = register_privileges acls p m [] in (m', insert name p profiles, errors)

-- The two loops of `RegisterPrivileges`, over the ACLs and over the profiles; the text of joined
-- errors is left out.
unfoldable pub register_acls : Acls → Dict Acl → Outcome Acls
unfolding register
register_acls acls [] = ok acls
register_acls acls ((name, a) ∷ rest) =
    wrap ("ACL: " <> name <> ": ") (register acls (record a { name = name })) >>= λ acls'.
    register_acls acls' rest

unfoldable pub register_profiles :
    Acls → Profiles → Managed → Profiles → Outcome (Managed × Profiles)
unfolding register_profile
register_profiles acls [] m profiles = ok (m, profiles)
register_profiles acls ((name, p) ∷ rest) m profiles =
    let (m', profiles', errors) = register_profile acls name p m profiles in
    elim errors [
      | [] ↦ register_profiles acls rest m' profiles'
      | e ∷ _ ↦ error ("privileges: " <> name)
    ]

-- `SplitManagedACLs`: instance wide, of a database, and default ACLs.
unfoldable pub split_managed_acls : Acls → Managed → List String × List String × List String
split_managed_acls acls [] = ([], [], [])
split_managed_acls acls ((n, _) ∷ rest) =
    let (instances, databases, defaults) = split_managed_acls acls rest in
    let acl = get_or acls n zero_acl in
    if uses acl "owner"
    then (instances, databases, n ∷ defaults)
    else if acl.scope == "instance"
    then (n ∷ instances, databases, defaults)
    else (instances, n ∷ databases, defaults)
